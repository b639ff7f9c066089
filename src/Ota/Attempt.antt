-- ===== src/Ota/Attempt.antt =====
-- One attempt of the update task.
use n32r.Prelude.{
  Bool, Bool-cases, EspErr, List, Option, Result, Result-cases, [], ap, arith, err, false, inl, inr,
  invalid_response, ok, ota_validate_failed, refl, replicate, true, ℕ, ◌++◌, ◌∷◌, ◌≡◌, ◌≤◌, ◌⊎◌,
}
use mathlib.Core.Bool.{false≢true}
use n32r.Prelude.{ota_validate_failed}
use n32r.Ota.{
  Desc, Config, Finish, finished, validate_failed, finish_failed, Answers, Action, begun, aborted,
  ended, delayed, validated, ota_perform_update,
}
use n32r.Ota.Counts.{polls_count}
use n32r.Ota.Counts.{opened, closed, restarts}

-- The answers of an attempt that applies the image: everything succeeds, and the callback accepts it.
pub record Good (cfg : Config) (running : Option Desc) (version : Option (List ℕ))
    (answers : Answers) (desc : Desc) : Type 0 where
  pub began : answers.begin ≡ ok tt
  pub described : answers.descriptor ≡ ok desc
  pub accepted : validated cfg desc running version ≡ ok tt
  pub transferred : answers.transfer ≡ ok tt
  pub complete : answers.complete ≡ true
  pub ended_well : answers.finish ≡ finished

finish_cases :
    (f : Finish) → (f ≡ finished) ⊎ ((f ≡ validate_failed) ⊎ ((e : EspErr) × (f ≡ finish_failed e)))
finish_cases finished = inl refl
finish_cases validate_failed = inr (inl refl)
finish_cases (finish_failed e) = inr (inr (e, refl))

-- An attempt: its handle is closed, it does not restart, and it applies an image only where it is good.
pub record Tidy (cfg : Config) (running : Option Desc) (version : Option (List ℕ))
    (answers : Answers) (r : Result Desc × (Bool × List Action)) : Type 0 where
  pub balanced : opened r.1.1 ≡ closed r.1.1
  pub once : opened r.1.1 ≤ 1
  pub no_restart : restarts r.1.1 ≡ 0
  pub good : (desc : Desc) → r.0 ≡ ok desc → Good cfg running version answers desc

err-ok : {A B : Type 0} {e : EspErr} {a : A} → err e ≡ ok a → B
err-ok h = absurd (false≢true (ground arith))

abbrev value_or : Desc → Result Desc → Desc
value_or fallback (ok desc) = desc
value_or fallback (err e) = fallback

module _ (cfg : Config) (running : Option Desc) (version : Option (List ℕ))
    (answers : Answers) where
  abort-Tidy :
      (e : EspErr) (retry : Bool) (n : ℕ)
      → Tidy cfg running version answers
          (err e, (retry, begun ∷ (replicate n (delayed 50) ++ (aborted ∷ []))))
  abort-Tidy e retry n =
      let (a, b, d) = polls_count n 50 (aborted ∷ []) in
      record {
        balanced = omega arith;
        once = omega arith;
        no_restart = omega arith;
        good = λ desc h. err-ok h;
      }

  end-Tidy :
      (e : EspErr) (retry : Bool) (n : ℕ)
      → Tidy cfg running version answers
          (err e, (retry, begun ∷ (replicate n (delayed 50) ++ (ended ∷ []))))
  end-Tidy e retry n =
      let (a, b, d) = polls_count n 50 (ended ∷ []) in
      record {
        balanced = omega arith;
        once = omega arith;
        no_restart = omega arith;
        good = λ desc h. err-ok h;
      }

  ok-Tidy :
      (desc : Desc) (retry : Bool) (n : ℕ)
      → Good cfg running version answers desc
      → Tidy cfg running version answers
          (ok desc, (retry, begun ∷ (replicate n (delayed 50) ++ (ended ∷ []))))
  ok-Tidy desc retry n g =
      let (a, b, d) = polls_count n 50 (ended ∷ []) in
      record {
        balanced = omega arith;
        once = omega arith;
        no_restart = omega arith;
        good = λ desc' h. (let e : desc ≡ desc' = ap (value_or desc) h in rw (← e) g);
      }

  pub perform-Tidy :
      Tidy cfg running version answers (ota_perform_update cfg running version answers)
  unfolding ota_perform_update
  perform-Tidy = elim (Result-cases answers.begin) [
    | inr (e, f) ↦
        simp (f, ota_perform_update)
          (record {
            balanced = refl;
            once = omega arith;
            no_restart = refl;
            good = λ desc h. err-ok h;
          })
    | inl (_, f) ↦ elim (Result-cases answers.descriptor) [
      | inr (e, g) ↦ simp (f, g, ota_perform_update) (abort-Tidy e true 0)
      | inl (desc, g) ↦ elim (Result-cases (validated cfg desc running version)) [
        | inr (e, h) ↦ simp (f, g, h, ota_perform_update) (abort-Tidy e false 0)
        | inl (_, h) ↦ elim (Result-cases answers.transfer) [
          | inr (e, k) ↦
              simp (f, g, h, k, ota_perform_update) (abort-Tidy e true answers.in_progress)
          | inl (_, k) ↦ elim (Bool-cases answers.complete) [
            | inr c ↦
                simp (f, g, h, k, c, ota_perform_update)
                  (abort-Tidy invalid_response true answers.in_progress)
            | inl c ↦ elim (finish_cases answers.finish) [
              | inl w ↦
                  simp (f, g, h, k, c, w, ota_perform_update)
                    (ok-Tidy desc false answers.in_progress (record {
                      began = f;
                      described = g;
                      accepted = h;
                      transferred = k;
                      complete = c;
                      ended_well = w;
                    }))
              | inr (inl w) ↦
                  simp (f, g, h, k, c, w, ota_perform_update)
                    (end-Tidy ota_validate_failed false answers.in_progress)
              | inr (inr (e, w)) ↦
                  simp (f, g, h, k, c, w, ota_perform_update) (end-Tidy e true answers.in_progress)
            ]
          ]
        ]
      ]
    ]
  ]
