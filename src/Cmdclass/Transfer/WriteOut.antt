-- ===== src/Cmdclass/Transfer/WriteOut.antt =====
-- `classifyCurlWriteOut` of internal/cmdclass/cmdclass.go, against the directives of its value.
use srvgov_cli.Prelude.{
  ℕ, zero, suc, ◌<◌, ◌≡◌, refl, sym, ◌∙◌, ◌↔◌, inl, inr, false, ◌||◌, none, some, arith,
  if◌then◌else◌, Bool-cases, Option-cases, length,
}
use srvgov_cli.GoText.{Text, is, has_prefix, trim_prefix, cut, after, length-after, length-cut, Std}
use srvgov_cli.Cmdclass.Risk.{r2, r3}
use srvgov_cli.Cmdclass.Targets.{is_unsafe_output_target}
use srvgov_cli.Cmdclass.Transfer.{write_out_loop, classify_curl_write_out}

-- The text names the file `t` in a directive `%output{t}`.
pub data Directive (t : Text) : Text → Type 0 where
  first :
      {v behind rest : Text}
      → after v "%output{" ≡ some behind
      → cut behind b'}' ≡ some (t, rest)
      → Directive t v
  later :
      {v behind u rest : Text}
      → after v "%output{" ≡ some behind
      → cut behind b'}' ≡ some (u, rest)
      → Directive t rest
      → Directive t v

-- Some directive of the text has no end.
pub data Unclosed : Text → Type 0 where
  open_end :
      {v behind : Text} → after v "%output{" ≡ some behind → cut behind b'}' ≡ none → Unclosed v
  later_end :
      {v behind u rest : Text}
      → after v "%output{" ≡ some behind
      → cut behind b'}' ≡ some (u, rest)
      → Unclosed rest
      → Unclosed v

module _ ⦃std : Std⦄ where
  abbrev pub IsSafeTarget : Text → Type 0
  IsSafeTarget t = is_unsafe_output_target (trim_prefix t ">>") ≡ false

  loop_none : (f : ℕ) (v : Text) → after v "%output{" ≡ none → write_out_loop (suc f) v ≡ r2
  unfolding write_out_loop
  loop_none f v e = rw (e, write_out_loop) refl

  loop_open :
      (f : ℕ) (v behind : Text)
      → after v "%output{" ≡ some behind
      → cut behind b'}' ≡ none
      → write_out_loop (suc f) v ≡ r3
  unfolding write_out_loop
  loop_open f v behind e c = rw (e, write_out_loop) (rw c refl)

  loop_step :
      (f : ℕ) (v behind u rest : Text)
      → after v "%output{" ≡ some behind
      → cut behind b'}' ≡ some (u, rest)
      → write_out_loop (suc f) v
        ≡ (if is_unsafe_output_target (trim_prefix u ">>") then r3 else write_out_loop f rest)
  unfolding write_out_loop
  loop_step f v behind u rest e c = rw (e, write_out_loop) (rw c refl)

  loop_safe : (f : ℕ) {v t : Text} → write_out_loop f v ≡ r2 → Directive t v → IsSafeTarget t
  loop_safe zero h d = absurd (unfold write_out_loop in omega arith)
  loop_safe (suc f) {v} {t} h (first {behind} {rest} a c) =
      ground (arith, loop_step f v behind t rest a c)
  loop_safe (suc f) {v} {t} h (later {behind} {u} {rest} a c d) =
      loop_safe f (ground (arith, loop_step f v behind u rest a c)) d

  loop_closed : (f : ℕ) {v : Text} → write_out_loop f v ≡ r2 → ¬ Unclosed v
  loop_closed zero h d = unfold write_out_loop in omega arith
  loop_closed (suc f) {v} h (open_end {behind} a c) = omega (arith, loop_open f v behind a c)
  loop_closed (suc f) {v} h (later_end {behind} {u} {rest} a c d) =
      loop_closed f (ground (arith, loop_step f v behind u rest a c)) d

  loop_accepts :
      (f : ℕ) (v : Text)
      → length v < f
      → ((t : Text) → Directive t v → IsSafeTarget t)
      → ¬ Unclosed v
      → write_out_loop f v ≡ r2
  loop_accepts zero v l s u = absurd (omega arith)
  loop_accepts (suc f) v l s u = elim (Option-cases (after v "%output{")) [
    | inl e ↦ loop_none f v e
    | inr (behind, e) ↦ elim (Option-cases (cut behind b'}')) [
      | inl c ↦ absurd (u (open_end e c))
      | inr ((t, rest), c) ↦
          let safe : IsSafeTarget t = s t (first e c) in
          loop_step f v behind t rest e c
          ∙ rw safe (
              loop_accepts f rest
                (omega (arith, length-after v "%output{" e, length-cut behind b'}' c))
                (λ t' d. s t' (later e c d)) (λ d. u (later_end e c d)))
    ]
  ]

  classify_curl_write_out-loop :
      (v : Text)
      → classify_curl_write_out v
        ≡ (if is v "" || has_prefix v "@" then r3 else write_out_loop (suc (length v)) v)
  unfolding classify_curl_write_out
  classify_curl_write_out-loop v = refl

  -- A `--write-out` value is accepted exactly when it is not empty, does not read a file by `@`, each
  -- of its directives has an end, and no directive names an unsafe target. The fuel is enough.
  pub classify_curl_write_out_iff :
      (v : Text)
      → (classify_curl_write_out v ≡ r2) ↔ (
          (is v "" ≡ false)
          × (has_prefix v "@" ≡ false)
          × ((t : Text) → Directive t v → IsSafeTarget t)
          × ¬ Unclosed v)
  classify_curl_write_out_iff v = elim (Bool-cases (is v "" || has_prefix v "@")) [
    | inl bad ↦ (
      λ h. absurd (ground (arith, classify_curl_write_out-loop v)),
      λ (n, at, s, u). absurd (ground arith),
    )
    | inr fine ↦
        let step : classify_curl_write_out v ≡ write_out_loop (suc (length v)) v =
          ground (arith, classify_curl_write_out-loop v) in
        (
          λ h. (
            ground arith,
            ground arith,
            λ t d. loop_safe (suc (length v)) (sym step ∙ h) d,
            loop_closed (suc (length v)) (sym step ∙ h),
          ),
          λ (n, at, s, u). step ∙ loop_accepts (suc (length v)) v (omega arith) s u,
        )
  ]
