-- ===== src/Api/Paths/Laws.antt =====
-- The paths of api.ts that hold an id.
use distill_portal.Prelude.{◌<◌, Text, lit, some, ◌++◌, All, ◌≡◌, refl}
use distill_portal.Api.Component.{encode_uri_component}
use distill_portal.Api.Component.Decoding.{
  IsSegmentChar, decode_uri_component, encode_uri_component_lem,
}
use distill_portal.Api.Paths.{
  operations_path, stored_sessions_path, operation_path, raw_session_path,
}

-- An id that is encoded stands in both paths as one segment, which holds no slash, question mark
-- or number sign; and decoding the segment gives the id.
pub paths_lem :
    (id seg : Text)
    → All (λ c. c < 0x10000) id
    → encode_uri_component id ≡ some seg
    → (operation_path id ≡ some (operations_path ++ (lit "/" ++ seg)))
      × (raw_session_path id ≡ some (stored_sessions_path ++ (lit "/" ++ (seg ++ lit "/raw"))))
      × (All IsSegmentChar seg)
      × (decode_uri_component seg ≡ id)
unfolding operation_path raw_session_path stored_sessions_path lit
paths_lem id seg hs h =
    let k = encode_uri_component_lem id seg hs h in
    (rw (operation_path, h) refl, rw (raw_session_path, h) refl, k.0, k.1)
