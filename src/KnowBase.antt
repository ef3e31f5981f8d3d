-- ===== src/KnowBase.antt =====
-- libEA/knowBase.cpp and diagnosticTypes.hpp: `CKnowBaseH5`, the counts of past cases at each node of a
-- rule, a hypothesis and an evidence. The HDF5 file is a parameter: a state `F` on which nodes are
-- created, written and read by their path. A `Tally_t` is a natural number, with one
-- taken from 0 as its bit pattern; its overflow at 2^63 cases is left out. The rebuilding of the mimic from a file found is left out.
pub mod File
pub mod Nodes
pub mod Initial
pub mod Memory
mod Tests
use zandr_ea.Prelude.{
  ℕ, ◌+◌, ◌-◌, Bool, true, false, not, ◌&&◌, List, [], ◌∷◌, ◌++◌, Option, some, none, map, ◌==◌,
  ltb, if◌then◌else◌, length, find, overwrite, has_id, emplace,
}
use zandr_ea.Types.{one_fewer}

-- A row of a node: how often the hypothesis was false and true.
pub record KnodeRow : Type 0 where
  pub hypo_false : ℕ
  pub hypo_true : ℕ

-- `Knode_t`: a row for each status of the evidence.
pub record Knode : Type 0 where
  pub evid_false : KnodeRow
  pub evid_true : KnodeRow
  pub unevaluated : KnodeRow

-- The status of an evidence, an index of the rows.
pub data EvidStatus : Type 0 where
  is_false is_true not_evaluated : EvidStatus

abbrev pub zero_row : KnodeRow
zero_row = record { hypo_false = 0; hypo_true = 0 }

-- `CKnowBaseH5::RezeroImage`.
abbrev pub zero_image : Knode
zero_image = record { evid_false = zero_row; evid_true = zero_row; unevaluated = zero_row }

abbrev pub row_at : EvidStatus → Knode → KnodeRow
row_at is_false n = n.evid_false
row_at is_true n = n.evid_true
row_at not_evaluated n = n.unevaluated

-- `ConvertIdToNameInKbase`, with 0 for the empty text that an identifier out of range gives.
abbrev pub name_of : ℕ → ℕ
name_of id = if ltb 0 id && ltb id 1000 then id else 0

-- The path to a node in the file.
pub record NodePath : Type 0 where
  pub rule_name : ℕ
  pub hypo_name : ℕ
  pub evid_name : ℕ

abbrev pub path_to : ℕ → ℕ → ℕ → NodePath
path_to r h e = record { rule_name = name_of r; hypo_name = name_of h; evid_name = name_of e }

-- Which groups on the way to a new node are there: none, the rule's, or the hypothesis's too.
pub data Progress : Type 0 where
  none_known rule_known hypo_known : Progress

-- The calls of the HDF5 library.
pub record NodeFile (F : Type 0) : Type 0 where
  pub create : Progress → NodePath → F → F
  pub write : NodePath → Knode → F → F
  pub read : NodePath → F → Option Knode

-- `CKnowBaseH5`, and of the tables of hypotheses and evidences their keys.
pub record KnowBase (F : Type 0) : Type 0 where
  pub file : F
  pub node_image : Knode
  pub hypos_by_id : List ℕ
  pub evids_by_id : List ℕ
  pub mimic_base : List (ℕ × List (ℕ × List ℕ))
  pub rule_x : ℕ
  pub hypo_y : ℕ
  pub evid_z : ℕ
  pub num_nodes_active : ℕ
  pub cursor_at_active_node : Bool
  pub kbase_is_preexistant_hdf5_file : Bool

-- How far the mimic knows the way to a node, and whether it knows the node itself.
unfoldable pub progress_to : ℕ → ℕ → ℕ → List (ℕ × List (ℕ × List ℕ)) → Progress × Bool
progress_to r h e mimic = elim (find r mimic) [
  | none ↦ (none_known, false)
  | some hypos ↦ elim (find h hypos) [
    | none ↦ (rule_known, false)
    | some evids ↦ (hypo_known, has_id e evids)
  ]
]

-- `mimicBase[ruleId]`, and `[hypoId]` of it: what `operator[]` gives, empty where the key is not there.
unfoldable pub or_empty {ℓ} : {A : Type ℓ} → Option (List A) → List A
or_empty none = []
or_empty (some xs) = xs

-- `mimicBase[ruleId][hypoId].push_back(evidId)`.
unfoldable pub add_node : ℕ → ℕ → ℕ → List (ℕ × List (ℕ × List ℕ)) → List (ℕ × List (ℕ × List ℕ))
unfolding or_empty
add_node r h e mimic =
    let hypos = or_empty (find r mimic) in
    overwrite r (overwrite h (or_empty (find h hypos) ++ e ∷ []) hypos) mimic

-- `IncrementHypoTrueForEvid` and `IncrementHypoFalseForEvid`, on the image.
abbrev pub count_true : KnodeRow → KnodeRow
count_true r = record r { hypo_true = r.hypo_true + 1 }

abbrev pub count_false : KnodeRow → KnodeRow
count_false r = record r { hypo_false = r.hypo_false + 1 }

unfoldable pub change_row : EvidStatus → (KnodeRow → KnodeRow) → Knode → Knode
change_row is_false f n = record n { evid_false = f n.evid_false }
change_row is_true f n = record n { evid_true = f n.evid_true }
change_row not_evaluated f n = record n { unevaluated = f n.unevaluated }

-- What `DevolveCounts` does to its copy of a row.
abbrev pub devolved : KnodeRow → KnodeRow
devolved r = record {
  hypo_false = if ltb 1 r.hypo_false then 1 else r.hypo_false;
  hypo_true = if ltb 1 r.hypo_true then 1 else r.hypo_true;
}

-- The image of `InitializeNodeAt` at the hypothesis named, of a rule with so many hypotheses.
abbrev pub nominal_image : Bool → Bool → ℕ → Knode
nominal_image sense_direct logic_invertible num_hypos = record {
  evid_false =
      if sense_direct
      then record {
        hypo_false = if logic_invertible then one_fewer num_hypos else 0;
        hypo_true = 0;
      }
      else record { hypo_false = 0; hypo_true = 1 };
  evid_true = if sense_direct then record { hypo_false = 0; hypo_true = 1 } else record {
    hypo_false = if logic_invertible then one_fewer num_hypos else 0;
    hypo_true = 0;
  };
  unevaluated = zero_row;
}

-- That at each other hypothesis of the rule.
abbrev pub alternative_image : Bool → ℕ → Knode
alternative_image sense_direct num_hypos = record {
  evid_false =
      if sense_direct
      then record { hypo_false = num_hypos - 2; hypo_true = 1 }
      else record { hypo_false = 1; hypo_true = 0 };
  evid_true =
      if sense_direct
      then record { hypo_false = 1; hypo_true = 0 }
      else record { hypo_false = num_hypos - 2; hypo_true = 1 };
  unevaluated = zero_row;
}

-- The path to the node under the cursor.
abbrev pub cursor_path : {F : Type 0} → KnowBase F → NodePath
cursor_path kb = path_to kb.rule_x kb.hypo_y kb.evid_z

module _ {F : Type 0} (io : NodeFile F) where
  -- `CKnowBaseH5::PanCursorToNodeAt`.
  unfoldable pub pan_cursor_to_node_at : ℕ → ℕ → ℕ → KnowBase F → KnowBase F
  pan_cursor_to_node_at r h e kb =
      let (progress, known) = progress_to r h e kb.mimic_base in
      let there = record kb { rule_x = r; hypo_y = h; evid_z = e; cursor_at_active_node = true } in
      if ltb 0 r && (ltb 0 h && ltb 0 e)
      then (if known then there else record there {
        file = io.create progress (path_to r h e) kb.file;
        mimic_base = add_node r h e kb.mimic_base;
        num_nodes_active = kb.num_nodes_active + 1;
      })
      else kb

  -- `CKnowBaseH5::ReadCursorToImage`; `none` where the library finds no node.
  unfoldable pub read_cursor_to_image : KnowBase F → Option (KnowBase F)
  read_cursor_to_image kb =
      if kb.cursor_at_active_node
      then elim (io.read (cursor_path kb) kb.file) [
        | none ↦ none
        | some n ↦ some (record kb { node_image = n })
      ]
      else some (record kb { node_image = zero_image })

  -- `CKnowBaseH5::WriteImageToCursor`.
  unfoldable pub write_image_to_cursor : KnowBase F → KnowBase F
  write_image_to_cursor kb =
      if kb.cursor_at_active_node
      then record kb { file = io.write (cursor_path kb) kb.node_image kb.file }
      else kb

  -- `IncrementHypoTrueForEvid` or `IncrementHypoFalseForEvid`.
  unfoldable pub increment_hypo_for_evid : Bool → EvidStatus → KnowBase F → KnowBase F
  increment_hypo_for_evid hypo status kb =
      if kb.cursor_at_active_node
      then record kb {
        node_image = change_row status (if hypo then count_true else count_false) kb.node_image;
      }
      else kb

  -- `CKnowBaseH5::DevolveCounts( void )`: its loops are over copies of the rows and of the counts, which
  -- nothing reads.
  unfoldable pub devolve_counts : KnowBase F → KnowBase F
  devolve_counts kb =
      if kb.cursor_at_active_node
      then (let n = kb.node_image in
          let copies : List KnodeRow =
            map devolved (n.evid_false ∷ n.evid_true ∷ n.unevaluated ∷ []) in
          kb)
      else kb

  -- An image written at a node that the cursor is panned to.
  unfoldable pub write_at : ℕ → ℕ → ℕ → Knode → KnowBase F → KnowBase F
  write_at r h e n kb =
      write_image_to_cursor (pan_cursor_to_node_at r h e (record kb { node_image = n }))

  -- The loop of `InitializeNodeAt` over the hypotheses of the rule.
  unfoldable pub write_alternatives : ℕ → ℕ → ℕ → Knode → List ℕ → KnowBase F → KnowBase F
  write_alternatives r nominal e n [] kb = kb
  write_alternatives r nominal e n (h ∷ hs) kb =
      write_alternatives r nominal e n hs (if h == nominal then kb else write_at r h e n kb)

  -- `CKnowBaseH5::InitializeNodeAt`.
  unfoldable pub initialize_node_at : ℕ → ℕ → ℕ → Bool → Bool → List ℕ → KnowBase F → KnowBase F
  initialize_node_at r nominal e sense_direct logic_invertible hypos kb =
      let n = length hypos in
      let named = write_at r nominal e (nominal_image sense_direct logic_invertible n) kb in
      let all = write_alternatives r nominal e (alternative_image sense_direct n) hypos named in
      let done = if kb.kbase_is_preexistant_hdf5_file then kb else if ltb 1 n then all else named in
      record done {
        hypos_by_id =
            if has_id nominal kb.hypos_by_id then kb.hypos_by_id else nominal ∷ kb.hypos_by_id;
        evids_by_id = if has_id e kb.evids_by_id then kb.evids_by_id else e ∷ kb.evids_by_id;
      }
