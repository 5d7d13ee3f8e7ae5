-- ===== src/Http/Response.antt =====
-- What an HTTPS download delivers (src/HTTPCommon.cpp, the lambda of `async_read`).
use async_iomanager.Common.{
  Bool, none, some, [], ◌∷◌, ◌++◌, Bytes, codes, find, filename, length, ◌≤◌, ◌≡◌, ◌≢◌, refl, sym,
  ap, ◌∙◌, arith,
}
use async_iomanager.Common.Search.{Found, find-Found, find-first, drop_past}
use async_iomanager.Io.{HttpError, http_device, success, Completion, failed, callbacks}
use async_iomanager.Http.{
  HttpDevice, reading, read_done, ReadEnd, no_error, eof, interrupted, step, on_read, deliver,
}

-- The response holds no empty line, and the download fails with `NO_HEADER`; or it is a header, an
-- empty line and a body, with no empty line that begins earlier, and the body is delivered, under the
-- last part of the path, with the flags of the device.
pub data Outcome (d : HttpDevice) (buffer : Bytes) (c : Completion) : Type 0 where
  headless :
      find (codes "\r\n\r\n") buffer ≡ none
      → c ≡ failed (http_device HttpError.no_header)
      → Outcome d buffer c
  delivered :
      (header body : Bytes)
      → buffer ≡ header ++ (codes "\r\n\r\n" ++ body)
      → ((p r : Bytes) → buffer ≡ p ++ (codes "\r\n\r\n" ++ r) → length header ≤ length p)
      → c ≡ record {
        buffers =
            success (some (record { paths = filename d.http_path ∷ []; contents = body ∷ [] }));
        parse = d.parse;
        save = d.save;
      }
      → Outcome d buffer c

deliver-none :
    (d : HttpDevice) (buffer : Bytes)
    → find (codes "\r\n\r\n") buffer ≡ none
    → deliver d buffer ≡ failed (http_device HttpError.no_header)
unfolding deliver
deliver-none d buffer h = ground arith

deliver-Outcome : (d : HttpDevice) (buffer : Bytes) → Outcome d buffer (deliver d buffer)
deliver-Outcome d buffer = by_place (find-Found b'\r' (codes "\n\r\n") buffer)
  where
    by_place : Found (codes "\r\n\r\n") buffer → Outcome d buffer (deliver d buffer)
    by_place (Found.absent e) = headless e (deliver-none d buffer e)
    by_place (Found.at p r split clean e) =
        delivered p r split
          (λ p' r' other.
            find-first b'\r' (codes "\n\r\n") p' r' (length p)
              (ap (λ t. find (codes "\r\n\r\n") t) (sym other) ∙ e))
          (unfold deliver in rw (deliver, e) (rw split (rw (drop_past p (codes "\r\n\r\n") r))))

-- A read that ends without an error, or at the end of the stream, makes one callback, at once: the
-- failure `NO_HEADER` where the response has no empty line, and otherwise the bytes behind the
-- first empty line.
pub step-Outcome :
    (d : HttpDevice) (e : Bool) (end : ReadEnd) (buffer : Bytes)
    → end ≢ interrupted
    → (c : Completion) × (callbacks (step d (reading e) (read_done end buffer)).1 ≡ c ∷ [])
      × Outcome d buffer c
unfolding step on_read
step-Outcome d e no_error buffer h = (deliver d buffer, refl, deliver-Outcome d buffer)
step-Outcome d e eof buffer h = (deliver d buffer, refl, deliver-Outcome d buffer)
step-Outcome d e interrupted buffer h = absurd (h refl)
