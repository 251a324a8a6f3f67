-- ===== src/Control.antt =====
-- rust/src/control.rs: the broadcaster commands and their PL frames. The text buffers that are wiped
-- on drop are plain lists.
pub mod Frame
pub mod Response
use jbl_aura_play_together.Base.{
  ℕ, ◌+◌, ◌/◌, ◌%◌, ltb, Option, none, some, List, [], ◌∷◌, ◌++◌, length, codes, if◌then◌else◌,
}
use jbl_aura_play_together.Error.{JblError}
use jbl_aura_play_together.Model.{DeviceIdentity, binary, upper_hex_digit, joined}

-- The constant `SUPPORTED_JBL_MODEL` of rust/src/model.rs.
abbrev pub supported_jbl_model : List ℕ
supported_jbl_model = codes "JBL Authentics 300"

pub data BroadcastCommand : Type 0 where
  start : DeviceIdentity → BroadcastCommand
  stop : BroadcastCommand

abbrev pub command_id : ℕ
command_id = 7957

unfoldable pub payload_json : BroadcastCommand → List ℕ
payload_json (start identity) =
    codes "{\"action\":1,\"broadcast\":{\"address\":\""
    ++ joined upper_hex_digit b':' (binary identity)
    ++ codes "\",\"name\":\""
    ++ supported_jbl_model
    ++ codes
        "\",\"need_access_code\":false,\"status\":2,\"subgroup\":[{\"active_status\":1,\"index\":0,\"is_support\":true,\"quality\":0}]}}"
payload_json stop = codes "{\"action\":2}"

-- `u16::to_le_bytes`.
abbrev pub to_le_bytes : ℕ → List ℕ
to_le_bytes n = (n % 256) ∷ (n / 256 % 256) ∷ []

-- `none` is the panic of `expect` on a payload that no `u16` measures.
unfoldable pub pl_frame : BroadcastCommand → Option (List ℕ)
pl_frame command =
    if ltb (length (payload_json command)) 65536
    then some (
        codes "PL"
        ++ to_le_bytes command_id
        ++ to_le_bytes (length (payload_json command))
        ++ payload_json command)
    else none

-- `PlayTogetherCommand::form_body`.
pub data PlayTogetherCommand : Type 0 where
  enter exit : PlayTogetherCommand

pub form_body : PlayTogetherCommand → List ℕ
form_body enter = codes "command=enterAuracast&payload=null"
form_body exit = codes "command=exitAuracast&payload=null"
