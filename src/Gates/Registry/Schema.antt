-- ===== src/Gates/Registry/Schema.antt =====
-- What the parameters that pass ValidateParams are.
use aegisops_ai.Base.{
  ◌≤◌, ◌≡◌, refl, ◌⊎◌, inl, inr, true, false, Option, none, some, Option-cases, arith, String, List,
  [], ◌∷◌, ◌++◌, All, All-imp, In, In-append_left, In-append_right, length, subst, is_some,
}
use aegisops_ai.Domain.ToolCall.{Value, Params}
use aegisops_ai.Gates.Registry.{
  Host, ParamSpec, ActionDescriptor, Registry, describe, get, given, param_key, coerce, fill,
  fill_all, both, validate_against, any_undeclared, declared, validate_params, max_params,
  default_of,
}
use aegisops_ai.Gates.Registry.Values.{Meets, coerce-Meets}

both-eq-some :
    (a b : Option Params) (c : Params)
    → both a b ≡ some c
    → (xs : Params) × (ys : Params) × (a ≡ some xs) × (b ≡ some ys) × ((xs ++ ys) ≡ c)
both-eq-some (some xs) (some ys) c h = (xs, ys, refl, refl, cc)
both-eq-some none b c h = cc
both-eq-some (some xs) none c h = cc

All-declared :
    (specs : List (String × ParamSpec)) (params : Params)
    → any_undeclared specs params ≡ false
    → All (λ e. declared specs e.0 ≡ true) params
unfolding any_undeclared
All-declared specs [] h = tt
All-declared specs ((name, v) ∷ rest) h = (ground arith, All-declared specs rest (ground arith))

accepted :
    (host : Host) (r : Registry) (tool action : String) (ad : ActionDescriptor)
    (params out : Params)
    → validate_against host r tool action params (some ad) ≡ some out
    → (length params ≤ max_params)
      × ((any_undeclared ad.params params ≡ false)
          × (fill_all host r tool action ad.params params ≡ some out))
unfolding validate_against
accepted host r tool action ad params out h = ground arith

module _ (host : Host) (r : Registry) (tool action : String) where
  -- Where an entry of the result comes from.
  pub record Filled (specs : List (String × ParamSpec)) (params : Params) (name : String)
      (v : Value) : Type 0 where
    pub spec : ParamSpec
    pub declared_as : In (name, spec) specs
    pub origin :
        ((given (get name params) ≡ none) × (spec.default ≡ some v))
        ⊎ ((raw : Value) × (given (get name params) ≡ some raw)
            × Meets host spec (get (param_key tool action name) r.compiled) spec.kind raw v)

  abbrev AllFilled : List (String × ParamSpec) → Params → Params → Type 0
  AllFilled specs params out = All (λ e. Filled specs params e.0 e.1) out

  AllFilled-later :
      (e : String × ParamSpec) (specs : List (String × ParamSpec)) (params out : Params)
      → AllFilled specs params out
      → AllFilled (e ∷ specs) params out
  AllFilled-later e specs params [] h = tt
  AllFilled-later e specs params (_ ∷ out) h = (
    record { spec = h.0.spec; declared_as = inr h.0.declared_as; origin = h.0.origin },
    AllFilled-later e specs params out h.1,
  )

  AllFilled-append :
      (specs : List (String × ParamSpec)) (params xs ys : Params)
      → AllFilled specs params xs
      → AllFilled specs params ys
      → AllFilled specs params (xs ++ ys)
  AllFilled-append specs params [] ys h k = k
  AllFilled-append specs params (x ∷ xs) ys h k = (h.0, AllFilled-append specs params xs ys h.1 k)

  fill-Filled :
      (name : String) (spec : ParamSpec) (specs : List (String × ParamSpec)) (params out : Params)
      (o : Option Value)
      → given (get name params) ≡ o
      → fill host (get (param_key tool action name) r.compiled) name spec o ≡ some out
      → AllFilled ((name, spec) ∷ specs) params out
  unfolding fill
  fill-Filled name spec specs params out none g h = by_default spec.default refl (ground arith)
    where
      by_default :
          (d : Option Value)
          → spec.default ≡ d
          → default_of d name ≡ out
          → AllFilled ((name, spec) ∷ specs) params out
      by_default none e same = subst (AllFilled ((name, spec) ∷ specs) params) same tt
      by_default (some v) e same =
          subst (AllFilled ((name, spec) ∷ specs) params) same
            (record { spec = spec; declared_as = inl refl; origin = inl (g, e) }, tt)
  fill-Filled name spec specs params out (some raw) g h =
      coerced (coerce host spec raw (get (param_key tool action name) r.compiled)) refl h
    where
      coerced :
          (c : Option Value)
          → coerce host spec raw (get (param_key tool action name) r.compiled) ≡ c
          → (elim c [ none ↦ none | some v ↦ some ((name, v) ∷ []) ]) ≡ some out
          → AllFilled ((name, spec) ∷ specs) params out
      coerced none e same = cc
      coerced (some v) e same =
          let eq : (name, v) ∷ [] ≡ out = cc in
          subst (AllFilled ((name, spec) ∷ specs) params) eq (
            record {
              spec = spec;
              declared_as = inl refl;
              origin = inr (raw, g, coerce-Meets host spec raw v _ e);
            },
            tt,
          )

  fill_all-AllFilled :
      (specs : List (String × ParamSpec)) (params out : Params)
      → fill_all host r tool action specs params ≡ some out
      → AllFilled specs params out
  unfolding fill_all
  fill_all-AllFilled [] params out h = let eq : [] ≡ out = cc in subst (AllFilled [] params) eq tt
  fill_all-AllFilled ((name, spec) ∷ rest) params out h =
      let (xs, ys, first, more, eq) =
        both-eq-some
          (fill host (get (param_key tool action name) r.compiled) name spec
            (given (get name params)))
          (fill_all host r tool action rest params) out h in
      subst (AllFilled ((name, spec) ∷ rest) params) eq (
        AllFilled-append ((name, spec) ∷ rest) params xs ys
          (fill-Filled name spec rest params xs (given (get name params)) refl first)
          (AllFilled-later (name, spec) rest params ys (fill_all-AllFilled rest params ys more)))

  -- What becomes of a declared parameter: it is given if it is required, a given value is entered
  -- as it must be, and the default is entered where none is given.
  pub record Treated (params out : Params) (e : String × ParamSpec) : Type 0 where
    pub required_given : e.1.required ≡ true → is_some (given (get e.0 params)) ≡ true
    pub given_entered :
        (raw : Value)
        → given (get e.0 params) ≡ some raw
        → (v : Value) × In (e.0, v) out
          × Meets host e.1 (get (param_key tool action e.0) r.compiled) e.1.kind raw v
    pub default_entered :
        given (get e.0 params) ≡ none → (v : Value) → e.1.default ≡ some v → In (e.0, v) out

  Treated-grows :
      (params xs ys : Params) (e : String × ParamSpec)
      → ((p : String × Value) → In p xs → In p ys)
      → Treated params xs e
      → Treated params ys e
  Treated-grows params xs ys e grows t = record {
    required_given = t.required_given;
    given_entered =
        λ raw g. let (v, there, meets) = t.given_entered raw g in (v, grows (e.0, v) there, meets);
    default_entered = λ g v d. grows (e.0, v) (t.default_entered g v d);
  }

  coerced-Treated :
      (name : String) (spec : ParamSpec) (params xs : Params) (raw : Value) (c : Option Value)
      → given (get name params) ≡ some raw
      → coerce host spec raw (get (param_key tool action name) r.compiled) ≡ c
      → (elim c [ none ↦ none | some v ↦ some ((name, v) ∷ []) ]) ≡ some xs
      → Treated params xs (name, spec)
  coerced-Treated name spec params xs raw none g e h = cc
  coerced-Treated name spec params xs raw (some v) g e h =
      let entered : (name, v) ∷ [] ≡ xs = cc in
      subst (λ l. Treated params l (name, spec)) entered
        (record {
          required_given = λ q. rw g refl;
          given_entered = λ raw' g'.
              let same : raw ≡ raw' = cc (g, g') in
              (
                v,
                inl refl,
                subst
                    (λ x.
                      Meets host spec (get (param_key tool action name) r.compiled) spec.kind x v)
                    same (coerce-Meets host spec raw v _ e),
              );
          default_entered = λ g' w d. cc (g, g');
        })

  fill-Treated :
      (name : String) (spec : ParamSpec) (params xs : Params) (o : Option Value)
      → given (get name params) ≡ o
      → fill host (get (param_key tool action name) r.compiled) name spec o ≡ some xs
      → Treated params xs (name, spec)
  unfolding fill
  fill-Treated name spec params xs none g h = record {
    required_given = λ q. ground (arith, q);
    given_entered = λ raw g'. cc (g, g');
    default_entered = λ g' v d.
        let entered : default_of spec.default name ≡ xs = ground arith in
        subst (In (name, v)) entered (rw (d, default_of) (inl refl));
  }
  fill-Treated name spec params xs (some raw) g h =
      coerced-Treated name spec params xs raw
        (coerce host spec raw (get (param_key tool action name) r.compiled)) g refl h

  fill_all-Treated :
      (specs : List (String × ParamSpec)) (params out : Params)
      → fill_all host r tool action specs params ≡ some out
      → All (Treated params out) specs
  unfolding fill_all
  fill_all-Treated [] params out h = tt
  fill_all-Treated ((name, spec) ∷ rest) params out h =
      let (xs, ys, first, more, eq) =
        both-eq-some
          (fill host (get (param_key tool action name) r.compiled) name spec
            (given (get name params)))
          (fill_all host r tool action rest params) out h in
      subst (λ l. All (Treated params l) ((name, spec) ∷ rest)) eq
        (
          Treated-grows params xs (xs ++ ys) (name, spec) (λ p. In-append_left p xs ys)
              (fill-Treated name spec params xs (given (get name params)) refl first),
          All-imp (Treated params ys) (Treated params (xs ++ ys)) rest
              (λ e. Treated-grows params ys (xs ++ ys) e (λ p. In-append_right p xs ys))
              (fill_all-Treated rest params ys more),
        )

-- Parameters that pass ValidateParams were given under declared names only and at most max_params of
-- them. Every declared parameter is given if it is required. A value that is given meets what the
-- declaration says for its kind and is entered in the result: a printable text within its length,
-- which matches its compiled pattern and is in its enumeration; a whole number, or an infinity, within
-- its bounds; a finite number within its bounds; or a Boolean. Where none is given, the default is
-- entered, if there is one. Nothing else is in the result.
pub validate_params_sound :
    (host : Host) (r : Registry) (tool action : String) (params out : Params)
    → validate_params host r tool action params ≡ some out
    → (ad : ActionDescriptor) × (describe r tool action ≡ some ad)
      × (length params ≤ max_params)
      × All (λ e. declared ad.params e.0 ≡ true) params
      × All (Treated host r tool action params out) ad.params
      × All (λ e. Filled host r tool action ad.params params e.0 e.1) out
unfolding validate_params validate_against
validate_params_sound host r tool action params out h =
    elim (Option-cases (describe r tool action)) [
      | inl missing ↦ cc (rw missing at h)
      | inr (ad, found) ↦
          let g : validate_against host r tool action params (some ad) ≡ some out = rw found at h in
          let (few, (named, filled)) = accepted host r tool action ad params out g in
          (
            ad,
            found,
            few,
            All-declared ad.params params named,
            fill_all-Treated host r tool action ad.params params out filled,
            fill_all-AllFilled host r tool action ad.params params out filled,
          )
    ]
