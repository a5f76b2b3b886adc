-- ===== src/Tests/Parsing.antt =====
-- src/parser/mod.rs and the code table of src/server/handlers/mod.rs on concrete inputs.
use weflow_server.Base.{◌≡◌, refl, ◌++◌, none, some, arith}
use weflow_server.Base.Int.{pos}
use weflow_server.Base.Text.{Text, codes, text_ops}
use weflow_server.Parser.{MediaHint, file}
use weflow_server.Parser.Xml.{open_tag, close_tag, elem_text, xml_ops}
use weflow_server.Parser.Xml.Laws.{elem_text-written, Lacks}
use weflow_server.Parser.LocalType.{split_local_type, local_type_ops}
use weflow_server.Parser.LocalType.Laws.{pack, split_local_type-pack}
use weflow_server.Parser.Message.{parse_message, message_ops}

Lacks-a : (Lacks b'<' (codes "ab")) × (Lacks b'<' (codes "hi"))
Lacks-a = (refl, refl)

elem_text-written_example :
    elem_text
      (codes "ab"
        ++ (open_tag (codes "title") ++ (codes "hi" ++ (close_tag (codes "title") ++ codes "<x"))))
      (codes "title")
    ≡ some (codes "hi")
elem_text-written_example =
    elem_text-written (codes "title") (codes "ab") (codes "hi") (codes "<x") Lacks-a.0 Lacks-a.1

Lacks-q : (Lacks b'a' (codes "<msg ")) × (Lacks b'"' (codes "7f"))
Lacks-q = (refl, refl)

split_local_type-pack_example : split_local_type (pack 57 49) ≡ (pos 49, some (pos 57))
split_local_type-pack_example = split_local_type-pack 57 49 (omega arith)

abbrev recall_xml : Text
recall_xml =
    codes
      "<sysmsg type=\"revokemsg\"><revokemsg><msgid>7</msgid><replacemsg>gone</replacemsg></revokemsg></sysmsg>"

found_recall :
    (parse_message (pos 10002) (pos 7) (pos 1) recall_xml).revoke
    ≡ some
        (record { msg_id = some (codes "7"); new_msg_id = none; replace_msg = some (codes "gone") })
unfolding text_ops xml_ops local_type_ops message_ops
found_recall = refl

-- An attachment whose type is not packed, with a quoted message before its own type.
abbrev file_xml : Text
file_xml =
    codes "<appmsg><title>a.pdf</title><refermsg><type>1</type></refermsg><type>6</type></appmsg>"

abbrev attachment_hint : MediaHint
attachment_hint = record { kind = file; file_name = codes "a.pdf"; md5 = none; aes_key = none }
