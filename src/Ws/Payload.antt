-- ===== src/Ws/Payload.antt =====
-- What a WebSocket download delivers (src/WSCommon.cpp, the lambda of `async_read_until`).
use async_iomanager.Common.{
  ◌+◌, ◌-◌, false, some, [], ◌∷◌, ◌++◌, Bytes, codes, filename, length, length-append, length-drop,
  take-append-drop, take, drop, take-append_left, length-take, ◌≡◌, ◌↔◌, refl, ap, arith,
}
use native.Mathlib.Nat.{add-zero}
use async_iomanager.Io.{success, Completion, callbacks}
use async_iomanager.Ws.{WsDevice, reading, read_done, step, deliver, on_read}

-- The completion with given contents.
abbrev pub completion_with : WsDevice → Bytes → Completion
completion_with d contents = record {
  buffers = success (some (record { paths = filename d.ws_path ∷ []; contents = contents ∷ [] }));
  parse = d.parse;
  save = d.save;
}

length-nil : (s : Bytes) → length s ≡ 0 → s ≡ []
length-nil [] h = refl
length-nil (c ∷ s) h = absurd (omega arith)

cut_length :
    (payload extra : Bytes)
    → length (payload ++ (codes "WSEOF" ++ extra)) - 5 ≡ length payload + length extra
cut_length payload extra = omega (arith, length-append payload (codes "WSEOF" ++ extra))

take_marker :
    (payload extra : Bytes)
    → length (take (length payload + length extra) (payload ++ (codes "WSEOF" ++ extra)))
      ≡ length payload + length extra
take_marker payload extra = omega (
  arith,
  length-take (length payload + length extra) (payload ++ (codes "WSEOF" ++ extra)),
  length-append payload (codes "WSEOF" ++ extra),
)

take_payload : (payload rest : Bytes) → take (length payload + 0) (payload ++ rest) ≡ payload
take_payload payload rest = rw add-zero (take-append_left payload rest)

-- A buffer that the read filled up to the end marker "WSEOF" and by some bytes more is delivered
-- without its last five bytes, `cut`, under the last part of the path. These are the bytes before
-- the marker exactly when the read took no byte behind it.
pub payload_exact_iff :
    (d : WsDevice) (payload extra : Bytes)
    → (contents : Bytes) × (cut : Bytes) × (callbacks
          (step d reading (read_done false (payload ++ (codes "WSEOF" ++ extra)))).1
        ≡ completion_with d contents ∷ [])
      × (contents ++ cut ≡ payload ++ (codes "WSEOF" ++ extra))
      × (length cut ≡ 5)
      × ((contents ≡ payload) ↔ (extra ≡ []))
unfolding step on_read deliver
payload_exact_iff d payload extra =
    let buffer = payload ++ (codes "WSEOF" ++ extra) in
    let kept = take (length payload + length extra) buffer in
    (
      kept,
      drop (length payload + length extra) buffer,
      ap (λ k. completion_with d (take k buffer) ∷ []) (cut_length payload extra),
      take-append-drop (length payload + length extra) buffer,
      omega (
        arith,
        length-drop (length payload + length extra) buffer,
        length-append payload (codes "WSEOF" ++ extra),
      ),
      (
        (λ e. length-nil extra (omega (arith, ap length e, take_marker payload extra))),
        (λ e. rw e (take_payload payload (codes "WSEOF" ++ []))),
      ),
    )
