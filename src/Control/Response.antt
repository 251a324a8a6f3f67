-- ===== src/Control/Response.antt =====
-- rust/src/control.rs: `BasicResponse::parse`, the acknowledgement of a form command. The JSON value
-- type and its parser are parameters.
use jbl_aura_play_together.Base.{
  ℕ, zero, suc, Option, List, Result, ok, err, codes, same, if◌then◌else◌,
}
use jbl_aura_play_together.Error.{
  JblError, invalid_json, basic_response_not_object, basic_response_code_missing,
  basic_response_code_invalid, control_command_rejected,
}
use jbl_aura_play_together.Model.Group.{JsonValue, ok_or, ◌>>=◌}

-- A number of `serde_json`: a u64, a negative i64 (here minus one minus the argument), or a float.
pub data Number : Type 0 where
  pos_int neg_int : ℕ → Number
  float : Number

-- A JSON value as the match on the code sees it.
pub data CodeValue : Type 0 where
  number : Number → CodeValue
  string : List ℕ → CodeValue
  other : CodeValue

unfoldable pub match_code : CodeValue → Result (Unit {0}) JblError
match_code (number (pos_int zero)) = ok tt
match_code (number (pos_int (suc n))) = err control_command_rejected
match_code (number (neg_int n)) = err control_command_rejected
match_code (number float) = err basic_response_code_invalid
match_code (string code) = if same code (codes "0") then ok tt else err control_command_rejected
match_code other = err basic_response_code_invalid

module _ {V M : Type 0} (json : JsonValue V M) (from_slice : List ℕ → Option V)
    (code_value : V → CodeValue) where
  unfoldable pub parse_response : List ℕ → Result (Unit {0}) JblError
  parse_response payload = do
    value ← ok_or (from_slice payload) invalid_json
    response ← ok_or (json.as_object value) basic_response_not_object
    error_code ← ok_or (json.entry (codes "error_code") response) basic_response_code_missing
    match_code (code_value error_code)
