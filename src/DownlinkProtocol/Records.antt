-- ===== src/DownlinkProtocol/Records.antt =====
-- Assignments to the fields of an object, as src/client/lib/qos/downlinkProtocol.js makes them.
use mediasoup_cpp.Shared.{◌≡◌, false, Text, text_eq, text_eq_refl, text_eq_sound, arith}
use mediasoup_cpp.Dynamic.{Value, text, Fields, no_fields, field, get}
use mediasoup_cpp.DownlinkProtocol.{put}

module _ {W : Type 0} where
  pub get-put : (k : Text) (v : Value W) (entries : Fields W) → get (put k v entries) k ≡ v
  unfolding get put
  get-put k v no_fields = ground (arith, text_eq_refl k)
  get-put k v (field j w entries) = ground (arith, get-put k v entries)

  pub get-put_other :
      (k j : Text) (v : Value W) (entries : Fields W)
      → text_eq k j ≡ false
      → get (put k v entries) j ≡ get entries j
  unfolding get put
  get-put_other k j v no_fields h = ground (arith, h)
  get-put_other k j v (field i w entries) h =
      ground (arith, h, text_eq_sound i k, get-put_other k j v entries h)

  -- An assignment again, and one of the text that is there.
  pub put-put :
      (k : Text) (v w : Value W) (entries : Fields W) → put k v (put k w entries) ≡ put k v entries
  unfolding put
  put-put k v w no_fields = ground (arith, text_eq_refl k)
  put-put k v w (field j u entries) = ground (arith, put-put k v w entries)

  pub put-kept :
      (k s : Text) (entries : Fields W) → get entries k ≡ text s → put k (text s) entries ≡ entries
  unfolding get put
  put-kept k s no_fields h = ground (arith, h)
  put-kept k s (field j u entries) h = ground (arith, h, put-kept k s entries)
