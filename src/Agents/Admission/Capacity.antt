-- ===== src/Agents/Admission/Capacity.antt =====
-- internal/agents/orchestrator.go: how many investigations run at once, and of which incidents.
use aegisops_ai.Base.{
  ℕ, zero, suc, ◌≤◌, ◌≡◌, refl, false, ◌==◌, leb, Bool-cases, inl, inr, List, [], ◌∷◌, ◌++◌, any,
  length, length-append, All, All-append, arith,
}
use aegisops_ai.Shared.{Uid, is_zero_id}
use aegisops_ai.Bus.Event.{Event}
use aegisops_ai.Agents.Program.{done, act}
use aegisops_ai.Agents.World.{World, Env}
use aegisops_ai.Agents.Investigation.{investigate}
use aegisops_ai.Agents.Admission.{
  Job, Engine, is_running, advance_at, on_incident_detected, advance, Happening, arrives, advances,
  happens, history,
}

-- No incident is in the list twice.
abbrev pub AreDistinct : List Job → Type 0
AreDistinct [] = Unit
AreDistinct (job ∷ rest) = (is_running job.0 rest ≡ false) × AreDistinct rest

abbrev pub IsWithin : ℕ → Engine → Type 0
IsWithin limit m =
    (length m.running ≤ limit)
    × AreDistinct m.running
    × All (λ (job : Job). is_zero_id job.0 ≡ false) m.running

length-advance_at :
    (n : ℕ) (jobs : List Job) (w : World) → length (advance_at n jobs w).0 ≤ length jobs
unfolding advance_at
length-advance_at n [] w = omega arith
length-advance_at zero ((id, done outcome) ∷ rest) w = omega arith
length-advance_at zero ((id, act f p) ∷ rest) w = omega arith
length-advance_at (suc n) (job ∷ rest) w = omega (arith, length-advance_at n rest w)

is_running-advance_at :
    (n : ℕ) (jobs : List Job) (w : World) (id : Uid)
    → is_running id jobs ≡ false
    → is_running id (advance_at n jobs w).0 ≡ false
unfolding advance_at is_running any
is_running-advance_at n [] w id h = refl
is_running-advance_at zero ((other, done outcome) ∷ rest) w id h = ground arith
is_running-advance_at zero ((other, act f p) ∷ rest) w id h = h
is_running-advance_at (suc n) (job ∷ rest) w id h =
    ground (arith, is_running-advance_at n rest w id)

advance_at-AreDistinct :
    (n : ℕ) (jobs : List Job) (w : World) → AreDistinct jobs → AreDistinct (advance_at n jobs w).0
unfolding advance_at
advance_at-AreDistinct n [] w h = tt
advance_at-AreDistinct zero ((id, done outcome) ∷ rest) w h = h.1
advance_at-AreDistinct zero ((id, act f p) ∷ rest) w h = h
advance_at-AreDistinct (suc n) (job ∷ rest) w h =
    (is_running-advance_at n rest w job.0 h.0, advance_at-AreDistinct n rest w h.1)

advance_at-All :
    (P : Uid → Type 0) (n : ℕ) (jobs : List Job) (w : World)
    → All (λ (job : Job). P job.0) jobs
    → All (λ (job : Job). P job.0) (advance_at n jobs w).0
unfolding advance_at
advance_at-All P n [] w h = tt
advance_at-All P zero ((id, done outcome) ∷ rest) w h = h.1
advance_at-All P zero ((id, act f p) ∷ rest) w h = h
advance_at-All P (suc n) (job ∷ rest) w h = (h.0, advance_at-All P n rest w h.1)

append-AreDistinct :
    (jobs : List Job) (job : Job)
    → AreDistinct jobs
    → is_running job.0 jobs ≡ false
    → AreDistinct (jobs ++ job ∷ [])
unfolding is_running any
append-AreDistinct [] job h fresh = (refl, tt)
append-AreDistinct ((id, p) ∷ rest) job h fresh = (
  is_running-append id rest job h.0 (ground arith),
  append-AreDistinct rest job h.1 (ground arith),
)
  where
    is_running-append :
        (id : Uid) (rest : List Job) (job : Job)
        → is_running id rest ≡ false
        → job.0 == id ≡ false
        → is_running id (rest ++ job ∷ []) ≡ false
    is_running-append id [] job h apart = ground arith
    is_running-append id (j ∷ rest) job h apart = ground (arith, is_running-append id rest job)

module _ (env : Env) (limit : ℕ) where
  on_incident_detected-IsWithin :
      (e : Event) (m : Engine)
      → IsWithin limit m
      → IsWithin limit (on_incident_detected env limit e m).0
  unfolding on_incident_detected
  on_incident_detected-IsWithin e m (bound, distinct, named) =
      elim (Bool-cases (is_zero_id e.incident_id)) [
        | inl unnamed ↦ rw (unnamed, on_incident_detected) (bound, distinct, named)
        | inr set ↦ elim (Bool-cases (is_running e.incident_id m.running)) [
          | inl already ↦ rw (set, already, on_incident_detected) (bound, distinct, named)
          | inr fresh ↦ elim (Bool-cases (leb limit (length m.running))) [
            | inl full ↦ rw (set, fresh, full, on_incident_detected) (bound, distinct, named)
            | inr room ↦
                let job : Job = (e.incident_id, investigate env e.incident_id) in
                rw (set, fresh, room, on_incident_detected)
                  (
                    ground (arith, length-append m.running (job ∷ [])),
                    append-AreDistinct m.running job distinct fresh,
                    All-append _ m.running (job ∷ []) named (set, tt),
                  )
          ]
        ]
      ]

  advance-IsWithin :
      (n : ℕ) (m : Engine) → IsWithin limit m → IsWithin limit (advance env limit n m)
  unfolding advance
  advance-IsWithin n m (bound, distinct, named) = (
    omega (arith, length-advance_at n m.running m.world),
    advance_at-AreDistinct n m.running m.world distinct,
    advance_at-All (λ id. is_zero_id id ≡ false) n m.running m.world named,
  )

  -- However arrivals and steps follow each other, no more investigations run than the limit allows,
  -- each of a different incident, which is named.
  pub history-IsWithin :
      (hs : List Happening) (m : Engine)
      → IsWithin limit m
      → IsWithin limit (history env limit hs m)
  unfolding history happens
  history-IsWithin [] m h = h
  history-IsWithin (arrives e ∷ hs) m h =
      history-IsWithin hs (on_incident_detected env limit e m).0
        (on_incident_detected-IsWithin e m h)
  history-IsWithin (advances n ∷ hs) m h =
      history-IsWithin hs (advance env limit n m) (advance-IsWithin n m h)
