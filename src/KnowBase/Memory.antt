-- ===== src/KnowBase/Memory.antt =====
-- libEA/knowBase.cpp: a file of nodes kept in memory, which does what the code relies on in the HDF5
-- library, and a new knowledge base on it.
use zandr_ea.Prelude.{refl, false, Option, some, none, [], if◌then◌else◌}
use zandr_ea.KnowBase.{NodeFile, NodePath, Knode, KnowBase, zero_image, progress_to}
use zandr_ea.Prelude.{find}
use zandr_ea.KnowBase.File.{KeepsNodes, same_path}
use zandr_ea.KnowBase.Nodes.{IsKept}
use mathlib.Core.Bool.{false≢true}

abbrev pub Memory : Type 0
Memory = NodePath → Option Knode

abbrev pub memory : NodeFile Memory
memory = record {
  create = λ g p f q. if same_path q p then some zero_image else f q;
  write = λ p n f q. if same_path q p then some n else f q;
  read = λ p f. f p;
}

abbrev pub memory-KeepsNodes : KeepsNodes memory
memory-KeepsNodes = record { read-create = λ g p q f. refl; read-write = λ p q m n f found. refl }

abbrev pub new_base : KnowBase Memory
new_base = record {
  file = λ p. none;
  node_image = zero_image;
  hypos_by_id = [];
  evids_by_id = [];
  mimic_base = [];
  rule_x = 0;
  hypo_y = 0;
  evid_z = 0;
  num_nodes_active = 0;
  cursor_at_active_node = false;
  kbase_is_preexistant_hdf5_file = false;
}

pub new_base-IsKept : IsKept memory memory-KeepsNodes new_base
unfolding progress_to find
new_base-IsKept r h e p known = absurd (false≢true known)
