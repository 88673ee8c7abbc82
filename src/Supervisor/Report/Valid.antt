-- ===== src/Supervisor/Report/Valid.antt =====
-- When a report says that the protocol is valid.
use fingerprint_full_matcher.Prelude.{
  ℕ, String, true, ◌↔◌, ◌≢◌, append_empty, Option-cases, inl, inr, ◌≡◌, none, List, [], ◌∷◌, refl,
  ap, sym, ◌∙◌, arith,
}
use fingerprint_full_matcher.Supervisor.Report.{
  Messages, checks_of, errors_of, is_valid, no_messages, any_mentions, lock_is_valid,
  integrity_errors,
}

no_messages_empty : (xs : List String) → no_messages xs ≡ true → xs ≡ []
unfolding no_messages
no_messages_empty [] h = refl
no_messages_empty (x ∷ xs) h = cc

module _ (subjects : ℕ) (row_counts : List ℕ) (messages : Messages) where
  all_valid :
      errors_of messages ≡ []
      → messages.integrity ≢ none
      → is_valid (checks_of subjects row_counts messages) (errors_of messages) ≡ true
  unfolding is_valid checks_of lock_is_valid errors_of no_messages any_mentions integrity_errors
  all_valid empty checked =
      let (_, after_selection) = append_empty messages.selection _ empty in
      let (no_manifests, after_manifests) = append_empty messages.manifests _ after_selection in
      let (_, after_releases) = append_empty messages.releases _ after_manifests in
      let (no_sources, after_sources) = append_empty messages.sources _ after_releases in
      let (_, no_integrity) = append_empty messages.documents _ after_sources in
      elim (Option-cases messages.integrity) [
        | inl unchecked ↦ absurd (checked unchecked)
        | inr (in_package, there) ↦
            let nothing : in_package ≡ [] = sym (ap integrity_errors there) ∙ no_integrity in
            rw (empty, no_manifests, no_sources, there, nothing) refl
      ]

  -- A run is reported as valid exactly if no part of it appended an error, whatever the errors' texts
  -- mention, and the package's integrity was checked.
  pub is_valid_iff :
      (is_valid (checks_of subjects row_counts messages) (errors_of messages) ≡ true)
      ↔ ((errors_of messages ≡ []) × (messages.integrity ≢ none))
  unfolding is_valid checks_of lock_is_valid
  is_valid_iff = (
    λ valid. (no_messages_empty (errors_of messages) (ground arith), λ unchecked. ground arith),
    λ (empty, checked). all_valid empty checked,
  )
