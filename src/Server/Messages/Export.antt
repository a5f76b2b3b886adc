-- ===== src/Server/Messages/Export.antt =====
-- What a page asks the exporter for.
use weflow_server.Base.{
  ℕ, ◌≤◌, ◌≡◌, ◌≢◌, refl, inl, inr, ◌⊎◌, Bool, true, false, not, ◌&&◌, List, [], ◌∷◌, arith, length,
  All, All-append, All-take, length-take, is_some, get_elem?, Bool-cases, Option-cases,
}
use weflow_server.Base.Text.{Text}
use weflow_server.Parser.{MediaKind, file}
use weflow_server.Store.{Store, MessageRecord}
use weflow_server.Server.Params.{Params}
use weflow_server.Server.Messages.{
  MessagePage, ExportJob, wants_kind, is_voice, job_of, jobs_of, collect_export_jobs, max_jobs,
  conversation,
}

-- A job that the exporter can do: of a wanted kind, and with a digest unless it is a voice message.
abbrev pub Exportable : Params → Text → ExportJob → Type 0
Exportable params talker j =
    (wants_kind params j.kind ≡ true)
    × (j.kind ≢ file)
    × ((is_some j.md5 ≡ true) ⊎ (is_voice j.kind ≡ true))
    × (j.talker ≡ talker)

wants_kind-file : (params : Params) → wants_kind params file ≡ false
unfolding wants_kind
wants_kind-file params = refl

wanted-not-file : (params : Params) (k : MediaKind) → wants_kind params k ≡ true → k ≢ file
wanted-not-file params k h e = let g = rw e at h in let f = wants_kind-file params in absurd cc

and-false-cases : (a b : Bool) → (not a && not b) ≡ false → (a ≡ true) ⊎ (b ≡ true)
and-false-cases a b h = ground arith

job_of-Exportable :
    (params : Params) (talker : Text) (m : MessageRecord)
    → All (Exportable params talker) (job_of params talker m)
unfolding job_of
job_of-Exportable params talker m = elim (Option-cases m.parsed.media) [
  | inl bare ↦ rw (job_of, bare) tt
  | inr (hint, media) ↦ elim (Bool-cases (wants_kind params hint.kind)) [
    | inr unwanted ↦ rw (job_of, media, unwanted) tt
    | inl wanted ↦ elim (Bool-cases (not (is_some hint.md5) && not (is_voice hint.kind))) [
      | inl lost ↦ rw (job_of, media, wanted, lost) tt
      | inr found ↦
          rw (job_of, media, wanted, found)
            ((wanted, wanted-not-file params hint.kind wanted, and-false-cases _ _ found, refl), tt)
    ]
  ]
]

jobs_of-Exportable :
    (params : Params) (talker : Text) (conv : List MessageRecord) (is : List ℕ)
    → All (Exportable params talker) (jobs_of params talker conv is)
unfolding jobs_of
jobs_of-Exportable params talker conv [] = tt
jobs_of-Exportable params talker conv (i ∷ is) =
    All-append _ _ _
      (elim (Option-cases (get_elem? conv i)) [
        | inl out ↦ rw out tt
        | inr (m, found) ↦ rw found (job_of-Exportable params talker m)
      ])
      (jobs_of-Exportable params talker conv is)

-- A request exports at most 200 media, each of a kind that the parameters ask for and never a file,
-- with a digest to find it by unless it is a voice message.
pub collect_export_jobs-Exportable :
    (s : Store) (page : MessagePage) (talker : Text) (params : Params)
    → All (Exportable params talker) (collect_export_jobs s page talker params)
      × (length (collect_export_jobs s page talker params) ≤ 200)
unfolding collect_export_jobs
collect_export_jobs-Exportable s page talker params =
    let jobs = jobs_of params talker (conversation s talker) page.indices in
    let bound = length-take max_jobs jobs in
    (
      All-take _ max_jobs jobs
          (jobs_of-Exportable params talker (conversation s talker) page.indices),
      omega arith,
    )
