-- ===== src/Subject/Numbers.antt =====
-- libEA/subject.cpp, `ASubject::GenerateAndSaySgiForNewCase`: the numbers of the cases of a subject.
use zandr_ea.Prelude.{ℕ, zero, suc, ◌+◌, ◌≡◌, refl, arith, if◌then◌else◌, ltb, min}
use zandr_ea.Subject.{Subject, new_subject, generate_sgi_for_new_case}

-- A new subject that has numbered some cases.
abbrev pub after_cases : ℕ → Subject
after_cases zero = new_subject
after_cases (suc n) = (generate_sgi_for_new_case (after_cases n)).1

next-after_cases : (n : ℕ) → (after_cases n).next_sgi_for_cases ≡ min (n + 1) 255
unfolding generate_sgi_for_new_case
next-after_cases zero = refl
next-after_cases (suc n) = ground (arith, next-after_cases n)

-- The first 254 cases of a subject are numbered from 1 on, and each case after them gets the number 1.
pub generate_sgi_for_new_case-number :
    (n : ℕ) → (generate_sgi_for_new_case (after_cases n)).0 ≡ (if ltb n 254 then n + 1 else 1)
unfolding generate_sgi_for_new_case
generate_sgi_for_new_case-number n = ground (arith, next-after_cases n)
