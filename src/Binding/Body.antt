-- ===== src/Binding/Body.antt =====
-- include/cloudevents/binding/common.hpp: the body of a message, copied or moved. A function that
-- takes the body by reference returns it as it leaves it.
use cloudevents_sdk_cpp.Base.{
  Bool, false, not, Option, none, some, [], ◌∷◌, Bytes, length, if◌then◌else◌,
}
use cloudevents_sdk_cpp.Errors.{Result, ok, err, ◌>>=◌}
use cloudevents_sdk_cpp.Headers.{Message}
use cloudevents_sdk_cpp.Platform.{Platform}
use cloudevents_sdk_cpp.Attributes.{is_json_content_type}
use cloudevents_sdk_cpp.Event.{DataT, Event, Builder, build, set_data}
use cloudevents_sdk_cpp.Binding.{DecodeOptions, retains_text_of}

module _ {P : Platform} where
  abbrev pub body_of : DataT P → Bytes → Bytes
  body_of DataT.monostate into = into
  body_of (DataT.binary_data held) into = held
  body_of (DataT.text_data held) into = held
  body_of (DataT.json_document held) into = P.dump_document held
  body_of (DataT.json_text raw) into = raw

  unfoldable pub write_body : Event P → Message → Message
  write_body e into = record into { body = body_of e.rest.payload into.body }

module _ (P : Platform) where
  -- `media_type && is_json_content_type(media_type->view())`
  unfoldable pub declares_json : Option Bytes → Bool
  declares_json none = false
  declares_json (some media_type) = is_json_content_type P media_type

  abbrev pub retained : Bytes → DecodeOptions → P.Document → DataT P
  retained text options document =
      if not (retains_text_of (length text) options)
      then DataT.json_text text
      else DataT.json_document document

  unfoldable pub read_body : Bytes → Option Bytes → DecodeOptions → Result (DataT P)
  read_body [] media_type options = ok DataT.monostate
  read_body (b ∷ bs) media_type options =
      let text : Bytes = b ∷ bs in
      if not (declares_json media_type)
      then ok (DataT.binary_data text)
      else if not options.parse_binary_body
      then ok (DataT.json_text text)
      else (do parsed ← P.parse_document text; ok (retained text options parsed))

  unfoldable pub moves_body : Bytes → Option Bytes → Bool
  moves_body [] media_type = false
  moves_body (b ∷ bs) media_type = not (declares_json media_type)

  -- the bytes taken, and the vector left behind
  unfoldable pub release_bytes : Bytes → Bytes × Bytes
  release_bytes body = (body, [])

  abbrev pub install : Option Bytes → Bytes → Result (Event P) → Result (Event P) × Bytes
  install media_type body (err e) = (err e, body)
  install media_type body (ok built) =
      let (taken, left) = release_bytes body in
      (ok (set_data built (DataT.binary_data taken) media_type), left)

  unfoldable pub build_moving_body : Builder P → Bytes → Result (Event P) × Bytes
  build_moving_body b body =
      install b.rest.datacontenttype body
        (build (record b { rest = record b.rest { datacontenttype = none } }))

  abbrev pub build_with : Builder P → Result (DataT P) → Result (Event P)
  build_with b read = do
    payload ← read
    build (record b { rest = record b.rest { payload = payload } })

  unfoldable pub build_taking_body : Builder P → Bytes → DecodeOptions → Result (Event P) × Bytes
  build_taking_body b body options =
      if moves_body body b.rest.datacontenttype
      then build_moving_body b body
      else (build_with b (read_body body b.rest.datacontenttype options), body)

  unfoldable pub read_body_moving : Bytes → Option Bytes → DecodeOptions → Result (DataT P) × Bytes
  read_body_moving body media_type options =
      if not (moves_body body media_type)
      then (read_body body media_type options, body)
      else let (taken, left) = release_bytes body in (ok (DataT.binary_data taken), left)

  -- how a reader ends that copies the body, once it has read the fields
  abbrev pub copy_body : Message → DecodeOptions → Result (Builder P) → Result (Event P)
  copy_body request options (err e) = err e
  copy_body request options (ok b) =
      build_with b (read_body request.body b.rest.datacontenttype options)

  -- `build_taking_body` on the body of the message
  abbrev pub take_body : Message → DecodeOptions → Result (Builder P) → Result (Event P) × Message
  take_body request options (err e) = (err e, request)
  take_body request options (ok b) =
      let (built, left) = build_taking_body b request.body options in
      (built, record request { body = left })
