-- ===== src/Parser/LocalType.antt =====
-- The packed `local_type` of src/parser/mod.rs, and the tables that are read by its base half.
pub mod Laws
use weflow_server.Base.{
  ℕ, ◌*◌, ◌+◌, ◌/◌, ◌%◌, ◌^◌, Bool, ◌&&◌, ◌||◌, not, Option, none, some, ◌==◌, if◌then◌else◌,
  or_else, ◌>>=◌, is_some,
}
use weflow_server.Base.Int.{ℤ, pos, negsuc, eqb_ℤ}
use weflow_server.Base.Text.{Text, codes, trim}
use weflow_server.Base.Decimal.{parse_i64}
use weflow_server.Parser.{ParsedMsg}
use weflow_server.Parser.Xml.{attr, elem_text, strip_elem}

-- `local_type & 0xFFFF_FFFF` and `local_type >> 32` on a value that is not negative.
abbrev pub low_half : ℕ → ℕ
low_half n = n % 2 ^ 32

abbrev pub high_half : ℕ → ℕ
high_half n = n / 2 ^ 32

unfoldable pub split_local_type : ℤ → ℤ × Option ℤ
split_local_type (negsuc n) = (negsuc n, none)
split_local_type (pos n) = (
  pos (low_half n),
  if not (high_half n == 0) && low_half n == 49 then some (pos (high_half n)) else none,
)

unfoldable pub appmsg_type : Text → Option ℤ
appmsg_type xml =
    let own = strip_elem xml (codes "refermsg") in
    do s ← or_else (elem_text own (codes "type")) (attr own (codes "type")); parse_i64 (trim s)

unfoldable pub subtype_of : ℤ → Text → Option ℤ
subtype_of local_type xml = or_else (split_local_type local_type).1 (appmsg_type xml)

unfoldable pub placeholder_for_base : ℤ → Option Text
placeholder_for_base (negsuc n) = some (codes "[消息]")
placeholder_for_base (pos n) =
    if n == 1
    then none
    else if n == 3
    then some (codes "[图片]")
    else if n == 34
    then some (codes "[语音]")
    else if n == 43
    then some (codes "[视频]")
    else if n == 47
    then some (codes "[表情]")
    else if n == 42
    then some (codes "[名片]")
    else if n == 48
    then some (codes "[位置]")
    else if n == 49
    then some (codes "[链接/文件]")
    else if n == 50
    then some (codes "[视频号]")
    else if n == 10000 || n == 10002
    then none
    else some (codes "[消息]")

unfoldable pub placeholder_for : ℤ → Option Text
placeholder_for local_type = placeholder_for_base (split_local_type local_type).0

abbrev pub is_six : Option ℤ → Bool
is_six none = Bool.false
is_six (some z) = eqb_ℤ z (pos 6)

-- The arm for 49 of `chatlab_type` in src/server/handlers/mod.rs.
abbrev appmsg_code : ℤ → ParsedMsg → ℕ
appmsg_code local_type parsed =
    if is_some parsed.reply_to
    then 25
    else if is_six (subtype_of local_type parsed.raw_content)
    then 4
    else 7

unfoldable pub chatlab_code : ℤ → ℤ → ParsedMsg → ℕ
chatlab_code (negsuc n) local_type parsed = 99
chatlab_code (pos n) local_type parsed =
    if n == 1
    then 0
    else if n == 3
    then 1
    else if n == 34
    then 2
    else if n == 43
    then 3
    else if n == 47
    then 5
    else if n == 42
    then 27
    else if n == 48
    then 8
    else if n == 50
    then 24
    else if n == 49
    then appmsg_code local_type parsed
    else if n == 10000 || n == 10002
    then (if is_some parsed.revoke then 81 else 80)
    else 99

unfoldable pub chatlab_type : ℤ → ParsedMsg → ℕ
chatlab_type local_type parsed = chatlab_code (split_local_type local_type).0 local_type parsed

-- The line that a test names to see through all of these.
unfoldable pub local_type_ops : Unit {0}
unfolding split_local_type appmsg_type subtype_of placeholder_for_base placeholder_for chatlab_code
    chatlab_type
local_type_ops = tt
