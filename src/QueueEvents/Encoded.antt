-- ===== src/QueueEvents/Encoded.antt =====
-- The replies of XREAD, and how they are read back.
use bullmq_rs.Prelude.{◌≡◌, refl, ap, ◌∙◌, String, List, [], ◌∷◌, ◌++◌, All, AllNe}
use bullmq_rs.Redis.{Value, Values, bulk, array, end, item, to_list}
use bullmq_rs.Scripts.Decode.{text?}
use bullmq_rs.Scripts.Active.Answers.{field_values, keys, read_fields-fields, all-New}
use bullmq_rs.QueueEvents.{
  entry_parts, parse_entry, parse_entries, stream_parts, parse_stream, parse_streams,
  parse_xread_response,
}

-- An entry of a stream: its id, and its fields with their values.
abbrev pub Entry : Type 0
Entry = String × List (String × String)

abbrev pub encoded_entries : List Entry → Values
encoded_entries [] = end
encoded_entries ((id, fields) ∷ entries) =
    item (array (item (bulk id) (item (array (field_values fields)) end))) (encoded_entries entries)

-- The reply to an XREAD of one stream: its key, and its entries as `[id, [field, value, ..]]`.
unfoldable pub encoded_reply : String → List Entry → Value
encoded_reply name entries =
    array (item (array (item (bulk name) (item (array (encoded_entries entries)) end))) end)

-- The fields of each entry have different names.
abbrev pub HaveFields : List Entry → Type 0
HaveFields entries = All (λ e. AllNe (keys e.1)) entries

append_nil : (es : List Entry) → es ++ [] ≡ es
append_nil [] = refl
append_nil (e ∷ es) = ap (λ r. e ∷ r) (append_nil es)

parse_entries-encoded :
    (es : List Entry) → HaveFields es → parse_entries (to_list (encoded_entries es)) ≡ es
unfolding parse_entries parse_entry entry_parts text? to_list
parse_entries-encoded [] h = refl
parse_entries-encoded ((id, fields) ∷ es) h =
    ap (λ f. (id, f) ∷ parse_entries (to_list (encoded_entries es)))
      (read_fields-fields fields [] h.0 (all-New (keys fields)))
    ∙ ap (λ r. (id, fields) ∷ r) (parse_entries-encoded es h.1)

-- The reply to an XREAD of one stream is read as the entries that it holds, each with its id and all its
-- fields, in their order.
pub parse_xread_response-encoded :
    (name : String) (es : List Entry)
    → HaveFields es
    → parse_xread_response (encoded_reply name es) ≡ es
unfolding parse_xread_response parse_streams parse_stream stream_parts encoded_reply to_list
parse_xread_response-encoded name es h =
    append_nil (parse_entries (to_list (encoded_entries es))) ∙ parse_entries-encoded es h
