-- ===== src/Binding/Moving.antt =====
-- The body of a message whose reader may move it.
use cloudevents_sdk_cpp.Base.{
  ap, ◌≡◌, refl, inl, inr, Bool, true, false, ◌&&◌, [], ◌∷◌, Bytes, if◌then◌else◌, Bool-cases,
  Option-cases,
}
use cloudevents_sdk_cpp.Errors.{Result, ok, err}
use cloudevents_sdk_cpp.Headers.{Message}
use cloudevents_sdk_cpp.Platform.{Platform}
use cloudevents_sdk_cpp.Event.{Builder, build, DataT, Event}
use cloudevents_sdk_cpp.Binding.{DecodeOptions}
use cloudevents_sdk_cpp.Binding.Body.{
  declares_json, read_body, moves_body, release_bytes, build_moving_body, build_with,
  build_taking_body, copy_body, take_body,
}

abbrev pub succeeds {ℓ} : {A : Type ℓ} → Result A → Bool
succeeds (ok a) = true
succeeds (err e) = false

abbrev pub left_by : Message → Bool → Message
left_by request taken = record {
  header_fields = request.header_fields;
  body = if taken then [] else request.body;
}

module _ (P : Platform) where
  -- What the copying reader returns, and the body it leaves.
  unfoldable pub Agrees : Builder P → Bytes → DecodeOptions → Result (Event P) × Bytes → Type 0
  Agrees b body options (result, left) =
      (result ≡ build_with P b (read_body P body b.rest.datacontenttype options))
      × (left
          ≡ (if moves_body P body b.rest.datacontenttype && succeeds (build b) then [] else body))

  -- `build` reads neither the payload nor the media type, so the order of the steps does not show.
  build_moving_body-build :
      (b : Builder P) (body : Bytes)
      → ((build_moving_body P b body).0 ≡ build_with P b (ok (DataT.binary_data body)))
        × ((build_moving_body P b body).1 ≡ (if succeeds (build b) then [] else body))
  unfolding build_moving_body release_bytes build
  build_moving_body-build b body = elim (Option-cases b.id) [
    | inl p ↦ rw p (refl, refl)
    | inr (i, p) ↦ elim (Option-cases b.source) [
      | inl q ↦ rw (p, q) (refl, refl)
      | inr (s, q) ↦ elim (Option-cases b.type) [
        | inl r ↦ rw (p, q, r) (refl, refl)
        | inr (t, r) ↦ rw (p, q, r) (refl, refl)
      ]
    ]
  ]

  -- A reader that may move the body returns what the copying reader returns. It leaves the body
  -- empty if the body is one that moves and the event was built, and as it was otherwise.
  pub build_taking_body_lem :
      (b : Builder P) (body : Bytes) (options : DecodeOptions)
      → Agrees b body options (build_taking_body P b body options)
  unfolding Agrees build_taking_body read_body moves_body
  build_taking_body_lem b [] options = (refl, refl)
  build_taking_body_lem b (x ∷ xs) options =
      elim (Bool-cases (declares_json P b.rest.datacontenttype)) [
        | inl p ↦ rw p (refl, refl)
        | inr p ↦ rw p (build_moving_body-build b (x ∷ xs))
      ]

  abbrev pub takes : Message → Result (Builder P) → Bool
  takes request (err e) = false
  takes request (ok b) = moves_body P request.body b.rest.datacontenttype && succeeds (build b)

  -- The same for a message.
  pub take_body_lem :
      (request : Message) (options : DecodeOptions) (r : Result (Builder P))
      → ((take_body P request options r).0 ≡ copy_body P request options r)
        × ((take_body P request options r).1 ≡ left_by request (takes request r))
  unfolding Agrees
  take_body_lem request options (err e) = (refl, refl)
  take_body_lem request options (ok b) =
      let (x, y) = build_taking_body_lem b request.body options in
      (x, ap (λ (left : Bytes). record request { body = left }) y)
