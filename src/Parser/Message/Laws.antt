-- ===== src/Parser/Message/Laws.antt =====
-- What `parse_message` of src/parser/mod.rs sets, by the type of the row.
use weflow_server.Base.{
  ℕ, ◌≡◌, refl, sym, ◌∙◌, Bool, true, false, Option, none, some, arith, if◌then◌else◌, unwrap_or,
  option_map, ◌⊎◌, ◌/◌, ◌%◌, ◌^◌, or_else,
}
use weflow_server.Base.Int.{ℤ, pos, negsuc}
use weflow_server.Base.Text.{Text, codes, trim}
use weflow_server.Base.Decimal.{parse_i64}
use weflow_server.Parser.{
  MediaKind, image, voice, video, emoji, file, MediaHint, QuoteInfo, RevokeInfo,
}
use weflow_server.Parser.Xml.{is_xml, attr, elem_text, strip_elem}
use weflow_server.Parser.LocalType.{split_local_type, placeholder_for_base, placeholder_for}
use weflow_server.Parser.Message.{
  extract_revoke, parse_system_text, rich_appmsg, rich_of, is_system, plain_text, parse_message,
}

abbrev pub kind_base : MediaKind → ℕ
kind_base image = 3
kind_base voice = 34
kind_base video = 43
kind_base emoji = 47
kind_base file = 49

-- The element or attribute `type` outside of a quoted message.
abbrev pub written_type : Text → Option Text
written_type xml =
    let own = strip_elem xml (codes "refermsg") in
    or_else (elem_text own (codes "type")) (attr own (codes "type"))

-- The upper half of a packed type says 6; a type that is not packed leaves it to the XML.
abbrev pub SaysFile : ℕ → Text → Type 0
SaysFile n xml =
    (n / 2 ^ 32 ≡ 6)
    ⊎ ((n / 2 ^ 32 ≡ 0)
        × ((s : Text) × (written_type xml ≡ some s) × (parse_i64 (trim s) ≡ some (pos 6))))

abbrev pub KindFits : MediaKind → ℕ → Text → Type 0
KindFits file n xml = SaysFile n xml
KindFits _ n xml = Unit

abbrev pub HintFits : ℤ → Text → MediaHint → Type 0
HintFits local_type xml h =
    (n : ℕ) × (local_type ≡ pos n) × (n % 2 ^ 32 ≡ kind_base h.kind) × KindFits h.kind n xml

rich_of-reply :
    (base local_type server_id local_id : ℤ) (xml : Text)
    → (rich_of base local_type server_id local_id xml).reply_to
      ≡ option_map
          (λ (q : QuoteInfo). q.platform_message_id)
          (rich_of base local_type server_id local_id xml).quote
unfolding rich_of rich_appmsg
rich_of-reply (negsuc n) t s l xml = refl
rich_of-reply (pos n) t s l xml = ground arith

rich_of-revoke :
    (base local_type server_id local_id : ℤ) (xml : Text)
    → (rich_of base local_type server_id local_id xml).revoke
      ≡ (if is_system base then extract_revoke xml else none)
unfolding rich_of rich_appmsg
rich_of-revoke (negsuc n) t s l xml = refl
rich_of-revoke (pos n) t s l xml = ground arith

module _ (local_type server_id local_id : ℤ) (content : Text) where
  -- A message is a reply exactly if it carries a quote, and then replies to the quoted message.
  pub parse_message-reply :
      (parse_message local_type server_id local_id content).reply_to
      ≡ option_map
          (λ (q : QuoteInfo). q.platform_message_id)
          (parse_message local_type server_id local_id content).quote
  unfolding parse_message
  parse_message-reply =
      ground
        (arith, rich_of-reply (split_local_type local_type).0 local_type server_id local_id content)

  -- A revocation is decoded from XML in system rows only, and from nothing else.
  pub parse_message-revoke : (parse_message local_type server_id local_id content).revoke ≡ (
      if is_xml content
      then (if is_system (split_local_type local_type).0 then extract_revoke content else none)
      else none)
  unfolding parse_message
  parse_message-revoke =
      ground (
        arith,
        rich_of-revoke (split_local_type local_type).0 local_type server_id local_id content,
      )

placeholder_for-system : (base : ℤ) → is_system base ≡ true → placeholder_for_base base ≡ none
unfolding placeholder_for_base
placeholder_for-system (negsuc n) h = cc
placeholder_for-system (pos n) h = ground arith

revoke-cases :
    (xml system : Bool) (found : Option RevokeInfo) (r : RevokeInfo)
    → (if xml then (if system then found else none) else none) ≡ some r
    → (system ≡ true) × (found ≡ some r)
revoke-cases xml system found r h = ground arith

-- A revocation shows its own text, and where it has none a fixed sentence; the plain text of the
-- row is the same.
pub parse_message-revoked :
    (local_type server_id local_id : ℤ) (content : Text) (r : RevokeInfo)
    → (parse_message local_type server_id local_id content).revoke ≡ some r
    → ((parse_message local_type server_id local_id content).display
        ≡ unwrap_or r.replace_msg (codes "撤回了一条消息"))
      × ((parse_message local_type server_id local_id content).parsed_text
          ≡ unwrap_or r.replace_msg (codes "撤回了一条消息"))
unfolding parse_message parse_system_text placeholder_for
parse_message-revoked t s l content r h =
    let base = (split_local_type t).0 in
    let (system, found) =
      revoke-cases (is_xml content) (is_system base) (extract_revoke content) r
        (sym (parse_message-revoke t s l content) ∙ h) in
    let shown = placeholder_for-system base system in ground arith

-- Text that is no XML is shown as it is, with nothing attached, in a row of base type 1.
pub parse_message-text :
    (local_type server_id local_id : ℤ) (content : Text)
    → (split_local_type local_type).0 ≡ pos 1
    → is_xml content ≡ false
    → parse_message local_type server_id local_id content ≡ record {
      display = content;
      raw_content = content;
      parsed_text = content;
      media = none;
      reply_to = none;
      quote = none;
      revoke = none;
    }
unfolding parse_message placeholder_for placeholder_for_base plain_text
parse_message-text t s l content b plain = ground arith
