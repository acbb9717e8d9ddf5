-- ===== src/Agents/Program.antt =====
-- Code that shares a state with other goroutines: each atomic action on the state is one step, and
-- between two steps of one goroutine any other may run.
use aegisops_ai.Base.{Bool, if◌then◌else◌, Bool-cases, inl, inr}

-- A program over the state `W` with a result in `A`. What follows an action depends on the state
-- that the action found.
pub data Program (W : Type 0) (A : Type 0) : Type 0 where
  done : A → Program W A
  act : (W → W) → (W → Program W A) → Program W A

-- What every step of every goroutine keeps, and how the state may change between two steps of one.
pub record Rely (W : Type 0) : Type 1 where
  pub Inv : W → Type 0
  pub Later : W → W → Type 0
  pub same : (w : W) → Later w w
  pub further : (u v w : W) → Later u v → Later v w → Later u w

module _ {W : Type 0} where
  -- Sequential composition.
  infixl 5 ◌>>=◌
  unfoldable pub ◌>>=◌ : {A B : Type 0} → Program W A → (A → Program W B) → Program W B
  done a >>= k = k a
  act f p >>= k = act f (λ w. p w >>= k)

  infixl 5 ◌>>◌
  abbrev pub ◌>>◌ : {B : Type 0} → Program W Unit → Program W B → Program W B
  p >> q = p >>= λ _. q

  -- A run that nothing interleaves.
  unfoldable pub run : {A : Type 0} → Program W A → W → W × A
  run (done a) w = (w, a)
  run (act f p) w = run (p w) (f w)

  -- The first program is at `act f`, and `rest` is it together with the second.
  alongside :
      (W → Bool) → (W → W) → (W → Program W Unit → Program W Unit) → Program W Unit → Program W Unit
  alongside first f rest (done _) = act f (λ w. rest w (done tt))
  alongside first f rest (act g q) =
      act (λ w. if first w then f w else g w)
        (λ w. if first w then rest w (act g q) else alongside first f rest (q w))

  -- Two goroutines and the wait for both; `first` says which of them takes the next step.
  unfoldable pub par : (W → Bool) → Program W Unit → Program W Unit → Program W Unit
  unfolding alongside
  par first (done _) q = q
  par first (act f p) q = alongside first f (λ w r. par first (p w) r) q

  module _ (rely : Rely W) where
    open rely use {Inv, Later, same, further}

    -- From any state that is later than `w`, every step of the program keeps `Inv` and leads to a
    -- later state, and `Post` holds of the result ever after.
    unfoldable pub Keeps : {A : Type 0} → (A → W → Type 0) → Program W A → W → Type 0
    Keeps Post (done a) w = (v : W) → Later w v → Post a v
    Keeps Post (act f p) w =
        (v : W) → Later w v → Inv v → Inv (f v) × Later v (f v) × Keeps Post (p v) (f v)

    pub Keeps-later :
        {A : Type 0} (Post : A → W → Type 0) (p : Program W A) {u v : W}
        → Later u v
        → Keeps Post p u
        → Keeps Post p v
    unfolding Keeps
    Keeps-later Post (done a) l h = λ w m. h w (further _ _ _ l m)
    Keeps-later Post (act f p) l h = λ w m inv. h w (further _ _ _ l m) inv

    pub bind-Keeps :
        {A B : Type 0} (Mid : A → W → Type 0) (Post : B → W → Type 0) (p : Program W A)
        (k : A → Program W B) (w : W)
        → Keeps Mid p w
        → ((a : A) (v : W) → Later w v → Mid a v → Keeps Post (k a) v)
        → Keeps Post (p >>= k) w
    unfolding Keeps ◌>>=◌
    bind-Keeps Mid Post (done a) k w h rest = rest a w (same w) (h w (same w))
    bind-Keeps Mid Post (act f p) k w h rest = λ v l inv.
        let (after, m, more) = h v l inv in
        (
          after,
          m,
          bind-Keeps Mid Post (p v) k (f v) more
              (λ a x n mid. rest a x (further _ _ _ (further _ _ _ l m) n) mid),
        )

    pub run-Keeps :
        {A : Type 0} (Post : A → W → Type 0) (p : Program W A) (w : W)
        → Keeps Post p w
        → Inv w
        → Inv (run p w).0 × Later w (run p w).0 × Post (run p w).1 (run p w).0
    unfolding Keeps run
    run-Keeps Post (done a) w h inv = (inv, same w, h w (same w))
    run-Keeps Post (act f p) w h inv =
        let (after, m, more) = h w (same w) inv in
        let (final, n, post) = run-Keeps Post (p w) (f w) more after in
        (final, further _ _ _ m n, post)

    -- Nothing is said of the result.
    abbrev pub Safe : {A : Type 0} → Program W A → W → Type 0
    Safe = Keeps (λ _ _. Unit)

    pub bind-Safe :
        {A B : Type 0} (p : Program W A) (k : A → Program W B) (w : W)
        → Safe p w
        → ((a : A) (v : W) → Safe (k a) v)
        → Safe (p >>= k) w
    bind-Safe p k w h rest = bind-Keeps (λ _ _. Unit) (λ _ _. Unit) p k w h (λ a v l _. rest a v)

    alongside-Safe :
        (first : W → Bool) (f : W → W) (rest : W → Program W Unit → Program W Unit)
        (q : Program W Unit) (w : W)
        → ((v : W)
            → Later w v
            → Inv v
            → Inv (f v)
              × Later v (f v)
              × ((r : Program W Unit) → Safe r (f v) → Safe (rest v r) (f v)))
        → Safe q w
        → Safe (alongside first f rest q) w
    unfolding Keeps alongside
    alongside-Safe first f rest (done _) w h hq =
        λ v l inv. let (after, m, more) = h v l inv in (after, m, more (done tt) (λ _ _. tt))
    alongside-Safe first f rest (act g q) w h hq = λ v l inv. elim (Bool-cases (first v)) [
      | inl its_turn ↦
          let (after, m, more) = h v l inv in
          rw its_turn (after, m, more (act g q) (Keeps-later _ (act g q) (further _ _ _ l m) hq))
      | inr others ↦
          let (after, m, more) = hq v l inv in
          rw others (
            after,
            m,
            alongside-Safe first f rest (q v) (g v)
                (λ x n. h x (further _ _ _ (further _ _ _ l m) n)) more,
          )
    ]

    -- However two goroutines interleave, they keep what each of them keeps.
    pub par-Safe :
        (first : W → Bool) (p q : Program W Unit) (w : W)
        → Safe p w
        → Safe q w
        → Safe (par first p q) w
    unfolding Keeps par
    par-Safe first (done _) q w hp hq = hq
    par-Safe first (act f p) q w hp hq =
        alongside-Safe first f (λ v r. par first (p v) r) q w
          (λ v l inv.
            let (after, m, more) = hp v l inv in
            (after, m, λ r hr. par-Safe first (p v) r (f v) more hr))
          hq
