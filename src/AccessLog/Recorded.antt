-- ===== src/AccessLog/Recorded.antt =====
-- What the access log may tell of a request (app/core/middlewares/user_info_middleware.py).
use mathlib.Core.Path.{ap₂}
use fastapi_project_structur.Common.{
  ℕ, ◌≡◌, refl, ap, String, true, Option, List, [], ◌∷◌, map, is_empty, if◌then◌else◌,
}
use fastapi_project_structur.BackgroundTasks.{Runner}
use fastapi_project_structur.AccessLog.{
  text, null, Text, Settings, Request, UserAgent, Called, member, masked_value, masked_pair,
  mask_query_string, collect_request_info, dispatch,
}

module _ (settings : Settings) (lower : Text → Text) (urlencode : List (Text × Text) → Text)
    (parse : Text → UserAgent) (resolve : (String → Option Text) → Option Text → Option Text) where
  -- The same parameters in the same order, but for the values of the sensitive ones.
  pub data Alike : List (Text × Text) → List (Text × Text) → Type 0 where
    nil : Alike [] []
    same : {p : Text × Text} {ps qs : List (Text × Text)} → Alike ps qs → Alike (p ∷ ps) (p ∷ qs)
    hidden :
        {key v w : Text} {ps qs : List (Text × Text)}
        → member (lower key) settings.sensitive_query_keys ≡ true
        → Alike ps qs
        → Alike ((key, v) ∷ ps) ((key, w) ∷ qs)

  abbrev mask : Text × Text → Text × Text
  mask = masked_pair settings lower urlencode parse resolve

  masked :
      (key v : Text)
      → member (lower key) settings.sensitive_query_keys ≡ true
      → mask (key, v) ≡ (key, masked_value)
  unfolding masked_pair
  masked key v h = rw h refl

  mask-Alike : {ps qs : List (Text × Text)} → Alike ps qs → map mask ps ≡ map mask qs
  mask-Alike nil = refl
  mask-Alike (same {p} a) = ap (mask p ∷◌) (mask-Alike a)
  mask-Alike (hidden {key} {v} {w} h a) =
      ap₂ ◌∷◌ (rw (masked key v h, masked key w h) refl) (mask-Alike a)

  empty-Alike : {ps qs : List (Text × Text)} → Alike ps qs → is_empty ps ≡ is_empty qs
  empty-Alike nil = refl
  empty-Alike (same a) = refl
  empty-Alike (hidden h a) = refl

  mask_query_string-Alike :
      (request : Request) (qs : List (Text × Text))
      → Alike request.query qs
      → mask_query_string settings lower urlencode parse resolve request
        ≡ mask_query_string settings lower urlencode parse resolve (record request { query = qs })
  unfolding mask_query_string
  mask_query_string-Alike request qs a =
      ap₂ (λ b ps. if b then null else text (urlencode ps)) (empty-Alike a) (mask-Alike a)

  -- Of two requests that differ only in the values of sensitive query parameters, the
  -- middleware treats one as it would treat the other if the rest of the application ended
  -- that one alike: but for the end, response or exception, and the user id that the
  -- application itself makes of those values, nothing that is passed on, no task and no field
  -- of the entry in the access log depends on them.
  pub dispatch_masks :
      (call_next : Request → Called) (request : Request) (qs : List (Text × Text)) (ms task : ℕ)
      (r : Runner)
      → Alike request.query qs
      → dispatch settings lower urlencode parse resolve call_next
          (record request { query = qs })
          ms
          task
          r
        ≡ dispatch settings lower urlencode parse resolve
            (λ _. call_next (record request { query = qs }))
            request
            ms
            task
            r
  unfolding dispatch collect_request_info
  dispatch_masks call_next request qs ms task r a = rw (mask_query_string-Alike request qs a) refl
