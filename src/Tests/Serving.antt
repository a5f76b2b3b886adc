-- ===== src/Tests/Serving.antt =====
-- The queries, parameters and guard of src/server on concrete inputs.
use Prim.Native.Nat.{min, suc}
use weflow_server.Base.{
  ◌≤◌, ◌<◌, ◌≡◌, refl, ◌↔◌, ◌⊎◌, true, false, List, [], ◌∷◌, ◌++◌, map, none, some, arith, length,
  All, if◌then◌else◌, ◌>>=◌,
}
use weflow_server.Base.Int.{pos}
use weflow_server.Base.Text.{Text, codes, text_ops}
use weflow_server.Base.Map.{lookup, map_ops}
use weflow_server.Store.{MessageRecord, conversation_known}
use weflow_server.Server.Params.{Params, JsonValue, string, is_credential_key, merge_params}
use weflow_server.Server.Params.Merge.{merged, merge_params-lookup}
use weflow_server.Server.Auth.{Encode, bearer, authorized}
use weflow_server.Server.Auth.Guard.{Bytes, authorized_iff}
use weflow_server.Server.Messages.{MessageQuery, TextOps, MessagePage, selected, index_of}
use weflow_server.Server.Messages.Pages.{walk, walk-pages}
use weflow_server.Server.Pull.{ascending, pull_page}
use weflow_server.Server.Pull.Seconds.{pull_page-resume}
use weflow_server.Tests.Samples.{from_ann, small_store}

abbrev query : Params
query = (codes "token", codes "abc") ∷ []

abbrev body : List (Text × JsonValue)
body = (codes "token", string (codes "x")) ∷ (codes "limit", string (codes "7")) ∷ []

merge_params-lookup_example : lookup (codes "token") (merge_params query (some body)) ≡ (
    if is_credential_key (codes "token")
    then lookup (codes "token") query
    else merged (codes "token") body (lookup (codes "token") query))
merge_params-lookup_example = merge_params-lookup query body (codes "token")

-- One byte for each character, that of 255 for all from there on.
abbrev clipped : Encode
clipped t = map (min 255) t

clipped-Bytes : (t : Text) → Bytes (clipped t)
clipped-Bytes [] = tt
clipped-Bytes (c ∷ t) = (omega arith, clipped-Bytes t)

clipped-eq : (t u : Text) → All (λ c. c < 255) u → clipped t ≡ clipped u → t ≡ u
clipped-eq [] [] h e = refl
clipped-eq [] (c ∷ u) h e = absurd cc
clipped-eq (c ∷ t) [] h e = absurd cc
clipped-eq (c ∷ t) (d ∷ u) (p, h) e =
    let front : min 255 c ≡ min 255 d = cc in
    let back : clipped t ≡ clipped u = cc in
    let same : c ≡ d = omega (arith, front, p) in rw (same, clipped-eq t u h back) refl

authorized_iff_example :
    (authorized clipped (codes "abc") query (some (codes "Bearer abc")) ≡ true) ↔ (
      ((some (codes "Bearer abc") >>= bearer) ≡ some (codes "abc"))
      ⊎ (lookup (codes "access_token") query ≡ some (codes "abc")))
authorized_iff_example =
    authorized_iff clipped (codes "abc") query (some (codes "Bearer abc")) clipped-Bytes
      (λ t e. clipped-eq t (codes "abc") (omega arith, (omega arith, (omega arith, tt))) e)

abbrev ops : TextOps
ops = record {
  to_lowercase = λ t. t;
  parse_time_bound = λ t. none;
  parse_time_bound_end = λ t. none;
}

abbrev ask : MessageQuery
ask = record {
  talker = codes "ann";
  limit = 1;
  offset = 0;
  keyword = none;
  start = none;
  end = none;
}

known : conversation_known small_store (codes "ann") ≡ true
unfolding conversation_known text_ops map_ops
known = refl

walk-pages_example :
    walk ops small_store (suc (length (selected ops small_store ask))) (record ask { offset = 0 })
    ≡ some (map index_of (selected ops small_store ask))
walk-pages_example = walk-pages ops small_store ask known (omega arith)

abbrev page : MessagePage
page = record { indices = 1 ∷ 0 ∷ []; has_more = false; next_offset = 2 }

abbrev rows : List MessageRecord
rows = from_ann 1 1000 ∷ from_ann 2 1000 ∷ from_ann 3 1001 ∷ []

pull_page-resume_example :
    (ascending none none rows
      ≡ (pull_page none none (pos 2000) 1 0 rows).messages
        ++ (if (pull_page none none (pos 2000) 1 0 rows).sync.has_more
            then ascending
                (some (pull_page none none (pos 2000) 1 0 rows).sync.next_since)
                none
                rows
            else []))
    × (((pull_page none none (pos 2000) 1 0 rows).sync.has_more ≡ false)
        ⊎ (1 ≤ length (pull_page none none (pos 2000) 1 0 rows).messages))
pull_page-resume_example = pull_page-resume none none (pos 2000) 1 rows
