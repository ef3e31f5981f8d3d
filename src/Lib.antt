-- ===== src/Lib.antt =====
-- A model of the core of the fault detection library of this repository, libEA, with theorems on it.
--
-- The library watches the equipment of a building. A client sets measured values and the time through
-- a port; the clock then rings, and each sequence triggers its objects (points, formulas, charts,
-- processes and facts, then kits of rules). An object that is triggered by its group counts down to its
-- next cycle. Facts make claims from their inputs, rules test facts, a kit of rules logs what its rules
-- find and sets a trap from time to time that finds the rule to open a case on. A case is a dialogue
-- with the user on the evidence for each hypothesis.
--
-- Files, and the code that each is about:
--   Prelude      shared tests on numbers, lists with native lengths, counts and maps
--   Types        libEA/customTypes.hpp, libEA/exportTypes.hpp: constants, replies, machine integers
--   Clock        libEA/taskClock.hpp, libEA/taskClock.cpp: CClockPerPort::SetTimeFromPort is
--                `set_time_from_port`, SClockRead is `ClockRead`; std::mktime is a parameter, which gives
--                the time and the fields as it has normalized them
--   SeqElement   libEA/seqElement.hpp, libEA/seqElement.cpp: ISeqElement::Trigger is `trigger`; the
--                Cycle of the subclass is a parameter
--   TimeAxis     libEA/agentTask.hpp, libEA/sequence.cpp: CSeqTimeAxis; the log is a list, newest first
--   Sequence     libEA/agentTask.hpp, libEA/sequence.cpp: CSequence::Register, Configure, Trigger are
--                `register`, `configure`, `trigger_sequence`; objects are numbers, and what a call of
--                Trigger on one does to the state of all is a parameter (Sequence/Schedule states
--                what is relied on, Sequence/Elements fills it with ISeqElement)
--   Fact         libEA/fact.hpp, libEA/fact.cpp: the Cycle of each class of facts, and the group that a
--                fact on facts takes
--   Rule         libEA/rule.hpp, libEA/rule.cpp: CRule::CycleAndSayBindex is `cycle_and_say_bindex`,
--                with the modes and snapshots of a rule
--   RuleKit      libEA/rainfall.hpp, libEA/rainfall.cpp: CRainRuleKit::EnableTrapAndSayResult is
--                `enable_trap`, and in RuleKit/Cycle CycleRulesInKitAndSayResults is
--                `cycle_rules_in_kit`
--   Dialogue     libEA/case.hpp, libEA/case.cpp: CCase::CheckAnswerValidThenSet is
--                `check_answer_valid_then_set`, each ActOnAnswerTo_X is `act_x`
--   CaseKit      libEA/case.hpp, libEA/case.cpp: CCaseKit::CreateAndOwnCase is `create_and_own_case`,
--                DestroyCase `destroy_case`, AnswerCasePromptUsingOptionIndex `answer_case_prompt`,
--                RegenCaseRankings `regen_case_rankings`
--   Kit          libEA/rule.hpp, libEA/rule.cpp: CRuleKit::Cycle is `cycle_kit`, AddRuleToKit
--                `add_rule_to_kit`, IdleAllRulesNotInCaseMode `idle_all_rules_not_in_case_mode`
--   Rain         libEA/rainfall.hpp, libEA/rainfall.cpp, libEA/viewParts.hpp, libEA/viewParts.cpp:
--                CRainFact::Cycle is `cycle_rain_fact`, CHistogramFact::Cycle `cycle_histogram`,
--                and in Rain/Analog CRainAnalog::Cycle is `cycle_rain_analog`; the rainfall register is
--                a list of the bin set in each row
--   Chart        libEA/chart.hpp, libEA/chart.cpp: CChartShewhart::Cycle is `cycle_shewhart`,
--                CChartTracking::Cycle `cycle_tracking`
--   KnowBase     libEA/knowBase.hpp, libEA/knowBase.cpp: CKnowBaseH5; the HDF5 file is a parameter, of
--                which KnowBase/File states what is relied on and KnowBase/Memory is an instance
--   CaseTally    libEA/case.cpp: CCase::ApplyBayesGivenEvidUpIs is `apply_bayes_given_evid_up_is`,
--                UpdateBayesProbabilities `update_bayes_probabilities`, LearnFromUserVerifyingSoln
--                `learn_solution`
--   Subject      libEA/subject.hpp, libEA/subject.cpp: ASubject::SubmitTrueIfGotFailOnPinnedRule is
--                `submit_true_if_got_fail_on_pinned_rule`; CDomain's alerts
--
-- The sequence runs the objects of SeqElement on a clock reading of Clock and stamps its time axis,
-- the kit of rules cycles rules, takes snapshots of the same axis, and has its kit of cases open a
-- case on the rule it traps; that case runs the dialogue, and puts its rule in and out of case mode.
-- An answer on an evidence weighs the hypotheses by the counts of the knowledge base, to which a
-- verified case adds its own. A fact's rain hands the states that enter and leave the hour to its
-- histogram. A kit of rules tells its subject of each fail on a rule pinned to its output.
--
-- Integers are natural numbers with the wrap-around of their width written out; an int that goes
-- negative is held as its bit pattern. A read out of range gives `none`. The laps of a sequence run on
-- fuel: one more than the lap on which the last group is reached is enough, which `IsReady` says of a
-- sequence and its fuel. Of two tables that are filled one from the other, the second iterates in an
-- order of its own, which is given as an argument: the order of a new case's tally, and that of the
-- marks of the pinned rules. Values that the code computes on floating-point numbers (what a test on
-- points says, whether a chart trips) are arguments or parameters, as are in Dialogue the beliefs that
-- CaseTally computes on integers. The overflow of a 64-bit count is left out.
--
-- Not modelled: the texts and panes shown to a user (the rest of libEA/viewParts.cpp,
-- libEA/mvc_view.cpp, libEA/guiShadow.cpp), files of logged data (libEA/HDF5Parts.cpp), the wiring of
-- the equipment (libEA/tool.cpp), statistics and formulas on floats (libEA/formula.cpp), the means and
-- deviations of a rain of analogs, and the histograms of analogs and rules (libEA/rainfall.cpp,
-- libEA/viewParts.cpp), the rebuilding of the knowledge base from a file found
-- (CKnowBaseH5::RebuildMimicFromFile), knobs (libEA/controlParts.cpp), the server (EAd), the driver
-- (EAbacnet), the browser client (eajscli) and generated code (protobuf).

pub mod Prelude
pub mod Types
pub mod Clock
pub mod SeqElement
pub mod TimeAxis
pub mod Sequence
pub mod Fact
pub mod Rule
pub mod RuleKit
pub mod Dialogue
pub mod KnowBase
pub mod Chart
pub mod CaseTally
pub mod Subject
pub mod Rain
pub mod CaseKit
pub mod Kit
