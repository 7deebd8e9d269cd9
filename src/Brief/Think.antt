-- ===== src/Brief/Think.antt =====
-- Texts between markers: `strings.Index` as the parts before and after a text, and `stripThink`
-- (brief.go).
use Prim.Native.String.{[] as empty, ◌∷◌ as cons, ◌++◌ as append}
use kubehealth.Prelude.{ℕ, zero, suc, true, false, String, Option, none, some, if◌then◌else◌}
use kubehealth.Problems.Words.{runes}
use kubehealth.Prelude.Lines.{has_prefix}

-- `s` without a prefix that it has.
drop_prefix : String → String → String
drop_prefix empty s = s
drop_prefix (cons d prefix) empty = empty
drop_prefix (cons d prefix) (cons c s) = drop_prefix prefix s

-- What stands before and after the first place that holds `t`; `none` where `strings.Index` is -1.
unfoldable pub split_at_text : String → String → Option (String × String)
unfolding has_prefix drop_prefix
split_at_text t empty = if has_prefix empty t then some ("", drop_prefix t empty) else none
split_at_text t (cons c s) = elim (has_prefix (cons c s) t) [
  | true ↦ some ("", drop_prefix t (cons c s))
  | false ↦ elim (split_at_text t s) [ some (p, q) ↦ some (cons c p, q) | none ↦ none ]
]

unfoldable pub after_text : String → String → Option String
unfolding split_at_text
after_text t s = elim (split_at_text t s) [ some (p, q) ↦ some q | none ↦ none ]

-- The loop of `stripThink`; each round makes the text shorter.
strip_blocks : ℕ → String → String
unfolding split_at_text
strip_blocks zero s = s
strip_blocks (suc fuel) s = elim (split_at_text "<think>" s) [
  | none ↦ elim (after_text "</think>" s) [ some rest ↦ rest | none ↦ s ]
  | some (p, q) ↦ elim (after_text "</think>" q) [
    | none ↦ p
    | some rest ↦ strip_blocks fuel (append p rest)
  ]
]

-- `stripThink`
unfoldable pub strip_think : String → String
unfolding strip_blocks runes
strip_think s = strip_blocks (suc (runes s)) s
