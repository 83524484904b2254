-- ===== src/Customers/Upsert.antt =====
-- One customer for an email of a merchant.
use hypertron_api.Prelude.{
  ℕ, String, List, [], ◌∷◌, ◌++◌, none, some, true, eq_iff, ◌≡◌, arith, Option-cases, inl, inr,
}
use hypertron_api.Prelude.Text.{Text, text_eq_refl}
use hypertron_api.Store.Tables.{Customer}
use hypertron_api.Store.Effects.{World}
use hypertron_api.Customers.{
  UpsertParams, NewId, normalised, has_email, find_customer, new_customer, upsert_by_email,
}

find_customer-append :
    (b : String) (e : Text) (cs : List Customer) (c : Customer)
    → find_customer b e cs ≡ none
    → has_email b e c ≡ true
    → find_customer b e (cs ++ c ∷ []) ≡ some c
unfolding find_customer
find_customer-append b e [] c n h = rw (h, find_customer)
find_customer-append b e (q ∷ cs) c n h = ground (arith, find_customer-append b e cs c)

-- With an email, a second request of the merchant under an email that normalises to the same text
-- finds the customer of the first one, whether that was found or created, and creates none.
pub upsert_by_email-again :
    (p q : UpsertParams) (i j : NewId) (c : ℕ) (e : Text) (w : World)
    → normalised p.email ≡ some (c ∷ e)
    → normalised q.email ≡ some (c ∷ e)
    → q.business_id ≡ p.business_id
    → let (r, w') = upsert_by_email p i w in upsert_by_email q j w' ≡ (r, w')
unfolding upsert_by_email
upsert_by_email-again p q i j c e w h k b =
    elim (Option-cases (find_customer p.business_id (c ∷ e) w.customers)) [
      | inr (x, f) ↦ ground (arith, h, k, b, f)
      | inl n ↦ ground (
        arith,
        h,
        k,
        b,
        n,
        eq_iff p.business_id p.business_id,
        text_eq_refl (c ∷ e),
        find_customer-append p.business_id (c ∷ e) w.customers (new_customer p i) n,
      )
    ]
