-- ===== src/Webhooks/Endpoints/Others.antt =====
-- What the calls of a merchant keep: the endpoints of the others, and what makes an endpoint valid.
use hypertron_api.Prelude.{
  String, List, [], ◌∷◌, ◌++◌, Option, Bool, false, not, ◌≡◌, refl, ◌∙◌, ap, sym, arith, any, count,
  filter, count-append, str_eq, eq_iff,
}
use mathlib.Core.List.{append-nil}
use hypertron_api.Prelude.Text.{Text}
use hypertron_api.Store.Tables.{WebhookEndpoint}
use hypertron_api.Store.Effects.{World}
use hypertron_api.Store.Rows.{has_key, Unique, filter-append}
use hypertron_api.Crypto.{Primitives}
use hypertron_api.Webhooks.Endpoints.{Url, same_ids}
use hypertron_api.Webhooks.Endpoints.Calls.{
  Op, IsValid, Step, adds, rewrites, deletes, stays, row_id,
}
use hypertron_api.Webhooks.Endpoints.Runs.{run, run_all, run-Step}

abbrev pub is_other : String → WebhookEndpoint → Bool
is_other b p = not (str_eq p.business_id b)

free-has_key :
    (p : WebhookEndpoint) (ps : List WebhookEndpoint)
    → any (same_ids p) ps ≡ false
    → count (has_key row_id p.id) ps ≡ 0
free-has_key p [] h = refl
free-has_key p (q ∷ ps) h = ground (arith, free-has_key p ps)

module _ (parse_url : Text → Option Url) (b : String) where
  abbrev pub AllValid : List WebhookEndpoint → Type 0
  AllValid [] = Unit
  AllValid (p ∷ ps) = IsValid parse_url p × AllValid ps

  AllValid-append : (ps qs : List WebhookEndpoint) → AllValid ps → AllValid qs → AllValid (ps ++ qs)
  AllValid-append [] qs v w = w
  AllValid-append (p ∷ ps) qs (a, v) w = (a, AllValid-append ps qs v w)

  AllValid-parts : (ps qs : List WebhookEndpoint) → AllValid (ps ++ qs) → AllValid ps × AllValid qs
  AllValid-parts [] qs v = (tt, v)
  AllValid-parts (p ∷ ps) qs (a, v) = let (l, r) = AllValid-parts ps qs v in ((a, l), r)

  Step-Unique :
      {ps qs : List WebhookEndpoint} → Step parse_url b ps qs → Unique row_id ps → Unique row_id qs
  Step-Unique (stays ps) u = u
  Step-Unique (adds p ps h m v) u = λ j.
      ground (
        arith,
        eq_iff p.id j,
        u j,
        count-append (has_key row_id j) ps (p ∷ []),
        free-has_key p ps h,
      )
  Step-Unique (rewrites pre post p q m n i v) u = λ j. ground (
    arith,
    u j,
    i,
    count-append (has_key row_id j) pre (p ∷ post),
    count-append (has_key row_id j) pre (q ∷ post),
  )
  Step-Unique (deletes pre post p m) u = λ j. ground (
    arith,
    u j,
    count-append (has_key row_id j) pre (p ∷ post),
    count-append (has_key row_id j) pre post,
  )

  gone : (p : WebhookEndpoint) → p.business_id ≡ b → is_other b p ≡ false
  gone p m = ground (arith, eq_iff p.business_id b)

  filter-own :
      (pre post : List WebhookEndpoint) (p : WebhookEndpoint)
      → p.business_id ≡ b
      → filter (is_other b) (pre ++ p ∷ post) ≡ filter (is_other b) (pre ++ post)
  filter-own pre post p m =
      filter-append row_id (is_other b) pre (p ∷ post)
      ∙ rw (gone p m) (sym (filter-append row_id (is_other b) pre post))

  Step-others :
      {ps qs : List WebhookEndpoint}
      → Step parse_url b ps qs
      → filter (is_other b) qs ≡ filter (is_other b) ps
  Step-others (stays ps) = refl
  Step-others (adds p ps h m v) = filter-own ps [] p m ∙ ap (filter (is_other b)) (append-nil ps)
  Step-others (rewrites pre post p q m n i v) =
      filter-own pre post q n ∙ sym (filter-own pre post p m)
  Step-others (deletes pre post p m) = sym (filter-own pre post p m)

  Step-AllValid :
      {ps qs : List WebhookEndpoint} → Step parse_url b ps qs → AllValid ps → AllValid qs
  Step-AllValid (stays ps) v = v
  Step-AllValid (adds p ps h m a) v = AllValid-append ps (p ∷ []) v (a, tt)
  Step-AllValid (rewrites pre post p q m n i f) v =
      let (l, (a, r)) = AllValid-parts pre (p ∷ post) v in AllValid-append pre (q ∷ post) l (f a, r)
  Step-AllValid (deletes pre post p m) v =
      let (l, (a, r)) = AllValid-parts pre (p ∷ post) v in AllValid-append pre post l r

  module _ (p : Primitives) (configured : Option Text) where
    -- Whatever calls a merchant makes, the endpoints of all other merchants stay as they are, from a
    -- table whose ids are unique.
    pub run_all-others :
        (os : List Op) (w : World)
        → Unique row_id w.endpoints
        → filter (is_other b) (run_all parse_url b p configured os w).endpoints
          ≡ filter (is_other b) w.endpoints
    run_all-others [] w u = refl
    run_all-others (o ∷ os) w u =
        let s : Step parse_url b w.endpoints (run parse_url b p configured o w).endpoints =
          run-Step parse_url b p configured o w u in
        run_all-others os (run parse_url b p configured o w) (Step-Unique s u) ∙ Step-others s

    -- Whatever calls a merchant makes, from a table whose ids are unique and in which every endpoint
    -- has some events and a URL that the runtime has parsed and its environment allows, every endpoint
    -- still has both.
    pub run_all-AllValid :
        (os : List Op) (w : World)
        → Unique row_id w.endpoints
        → AllValid w.endpoints
        → AllValid (run_all parse_url b p configured os w).endpoints
    run_all-AllValid [] w u v = v
    run_all-AllValid (o ∷ os) w u v =
        let s : Step parse_url b w.endpoints (run parse_url b p configured o w).endpoints =
          run-Step parse_url b p configured o w u in
        run_all-AllValid os (run parse_url b p configured o w) (Step-Unique s u) (Step-AllValid s v)
