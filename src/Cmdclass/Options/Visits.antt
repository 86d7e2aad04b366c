-- ===== src/Cmdclass/Options/Visits.antt =====
-- Which arguments a loop over `args` looks at, and what its result says of each.
use srvgov_cli.Prelude.{
  ◌≡◌, refl, sym, ◌∙◌, inl, inr, Option, none, some, List, [], ◌∷◌, ◌++◌, Option-cases, All, IfSome,
  IfSome-eq,
}
use srvgov_cli.GoText.{Text}
use srvgov_cli.Cmdclass.Options.{Next, same, following, walk}

module _ {ℓ} {S : Type ℓ} (body : S → Text → List Text → Option (Next × S)) where
  -- The loop comes to the argument `a`, with `r` behind it, in the state `t`.
  pub data Visits (t : S) (a : Text) (r : List Text) : Next → S → List Text → Type ℓ where
    here : Visits t a r same t (a ∷ r)
    passed :
        {s : S} {x : Text} {rest : List Text}
        → Visits t a r same s rest
        → Visits t a r following s (x ∷ rest)
    stepped :
        {s : S} {x : Text} {rest : List Text} (next : Next) (s' : S)
        → body s x rest ≡ some (next, s')
        → Visits t a r next s' rest
        → Visits t a r same s (x ∷ rest)

  walk-some :
      (s : S) (x : Text) (rest : List Text) {next : Next} {s' : S}
      → body s x rest ≡ some (next, s')
      → walk body same s (x ∷ rest) ≡ walk body next s' rest
  unfolding walk
  walk-some s x rest e = rw (e, walk) refl

  walk-none :
      (s : S) (x : Text) (rest : List Text)
      → body s x rest ≡ none
      → walk body same s (x ∷ rest) ≡ none
  unfolding walk
  walk-none s x rest e = rw (e, walk) refl

  -- Where the loop ends, it accepted each argument that it came to.
  pub walk-Visits :
      {t : S} {a : Text} {r : List Text} {next : Next} {s : S} {args : List Text} (end : S)
      → Visits t a r next s args
      → walk body next s args ≡ some end
      → (step : Next × S) × (body t a r ≡ some step)
  unfolding walk
  walk-Visits {t} {a} {r} end here h = elim (Option-cases (body t a r)) [
    | inl e ↦ cc (walk-none t a r e)
    | inr v ↦ v
  ]
  walk-Visits end (passed v) h = walk-Visits end v h
  walk-Visits end (stepped next s' e v) h = walk-Visits end v (sym (walk-some _ _ _ e) ∙ h)

  -- An argument that is refused in every state that keeps `P` makes the loop fail, if the arguments in
  -- front keep `P` and none of them takes a value.
  pub walk_refuses {κ μ} :
      (P : S → Type κ) (Q : Text → Type μ)
      → ((s : S) (x : Text) (rest : List Text)
          → P s
          → Q x
          → IfSome (λ (v : Next × S). (v.0 ≡ same) × P v.1) (body s x rest))
      → (a : Text) → ((s : S) (rest : List Text) → P s → body s a rest ≡ none)
      → (s : S) (pre post : List Text) → P s
      → All Q pre
      → walk body same s (pre ++ a ∷ post) ≡ none
  unfolding walk
  walk_refuses P Q keep a refused s [] post p q = rw (refused s post p)
  walk_refuses P Q keep a refused s (x ∷ pre) post p q =
      elim (Option-cases (body s x (pre ++ a ∷ post))) [
        | inl e ↦ rw e
        | inr ((n, s'), e) ↦
            let (stay, p') =
              IfSome-eq (λ (v : Next × S). (v.0 ≡ same) × P v.1) (keep s x _ p q.0) e in
            rw (e, stay) (walk_refuses P Q keep a refused s' pre post p' q.1)
      ]
