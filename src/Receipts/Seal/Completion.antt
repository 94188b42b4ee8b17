-- ===== src/Receipts/Seal/Completion.antt =====
-- When an action may be marked complete.
use codex_trading_engine.Prelude.{
  String, ◌≡◌, refl, ◌↔◌, ◌⊎◌, inl, inr, false, Option, ok, Bool-cases,
}
use codex_trading_engine.Value.{Dict}
use codex_trading_engine.Receipts.Seal.{
  absent, is_complete_status, require_receipt_cid_for_completion, mark_action_complete,
}

-- An action is marked with a status exactly when the status is no completion or a CID is given
-- that is not empty.
pub mark_action_complete_iff :
    (action_kind : String) (receipt_cid : Option String) (target_status : String)
    → ((record' : Dict) × (mark_action_complete action_kind receipt_cid target_status ≡ ok record'))
      ↔ ((is_complete_status target_status ≡ false) ⊎ (absent receipt_cid ≡ false))
unfolding mark_action_complete require_receipt_cid_for_completion
mark_action_complete_iff kind cid status = elim (Bool-cases (is_complete_status status)) [
  | inr n ↦ rw n ((λ _. inl refl), (λ _. (_, refl)))
  | inl y ↦ elim (Bool-cases (absent cid)) [
    | inr n ↦ rw (y, n) ((λ _. inr refl), (λ _. (_, refl)))
    | inl z ↦
        rw (y, z)
          ((λ (r, e). absurd (cc)), (λ s. elim s [ inl p ↦ absurd (cc) | inr p ↦ absurd (cc) ]))
  ]
]
