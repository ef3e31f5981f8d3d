-- ===== src/KnowBase/Tests.antt =====
-- libEA/knowBase.cpp: a new knowledge base, with an evidence of a rule with three hypotheses.
