-- ===== src/Erasure/Blocked.antt =====
-- Requests that cannot succeed.
use text.Mathlib.Text.{◌==◌ as str_eq}
use Prim.Native.String.{String}
use cloud_sentinel_ai.Base.{arith, ℕ, ◌≡◌, refl, Bool, true, false, not, ◌||◌, none, if_both}
use cloud_sentinel_ai.Connections.Routes.{UserRole, owner, has_role}
use cloud_sentinel_ai.Erasure.{Tables, ErasureAnswer, erasure_complete, erase, request_data_erasure}
use cloud_sentinel_ai.Erasure.Order.{
  is_allocated, is_user_named, is_rule_used, is_account_used, erase_lem,
}

abbrev pub is_complete : ErasureAnswer → Bool
is_complete (erasure_complete _) = true
is_complete _ = false

module _ (tenant user : ℕ) (t : Tables) where
  blocked_by_one : (a b c d : Bool) → (a || d) ≡ true → (a || (b || (c || d))) ≡ true
  blocked_by_one a b c d h = ground (arith, h)

  erase-none :
      (is_allocated tenant user t || is_user_named tenant user t) ≡ true
      → erase tenant user t ≡ none
  erase-none h = rw (erase_lem tenant user t) (
      rw
        (blocked_by_one (is_allocated tenant user t) (is_rule_used tenant user t)
          (is_account_used tenant user t) (is_user_named tenant user t) h)
        refl)

  -- As long as an allocation of one of its cost records exists, or another user of the tenant is an
  -- actor of the audit log or named by a request of another tenant, no request of any role with any
  -- confirmation erases the data of a tenant: none is answered as complete, and none changes a table.
  pub never_erased :
      (role : UserRole) (confirmation : String)
      → (is_allocated tenant user t || is_user_named tenant user t) ≡ true
      → (is_complete (request_data_erasure role tenant user confirmation t).0 ≡ false)
        × ((request_data_erasure role tenant user confirmation t).1 ≡ t)
  unfolding request_data_erasure
  never_erased role confirmation h = rw (erase-none h) (
      if_both {A = ErasureAnswer × Tables} (λ o. (is_complete o.0 ≡ false) × (o.1 ≡ t))
        (not (has_role owner role)) (refl, refl)
        (if_both {A = ErasureAnswer × Tables} (λ o. (is_complete o.0 ≡ false) × (o.1 ≡ t))
          (not (str_eq confirmation "DELETE ALL MY DATA")) (refl, refl) (refl, refl)))
