-- ===== src/Dynamic.antt =====
-- The values of the language that the parsers of src/client/lib/qos/protocol.js and the readers of
-- statistics take apart: what `JSON.parse` gives, and `undefined`.
use mediasoup_cpp.Shared.{ℕ, suc, Bool, Text, text_eq, if◌then◌else◌}

mutual
  pub data Value (W : Type 0) : Type 0 where
    missing : Value W
    null : Value W
    boolean : Bool → Value W
    number : W → Value W
    text : Text → Value W
    array : Items W → Value W
    object : Fields W → Value W

  pub data Items (W : Type 0) : Type 0 where
    no_items : Items W
    item : Value W → Items W → Items W

  pub data Fields (W : Type 0) : Type 0 where
    no_fields : Fields W
    field : Text → Value W → Fields W → Fields W

module _ {W : Type 0} where
  -- `obj[key]`. A key that is not there reads as `undefined`, which is `missing`; none of the keys that
  -- are read here is one of `Object.prototype`.
  unfoldable pub get : Fields W → Text → Value W
  get no_fields key = missing
  get (field k v fs) key = if text_eq k key then v else get fs key

  unfoldable pub count_items : Items W → ℕ
  count_items no_items = 0
  count_items (item v vs) = suc (count_items vs)
