-- ===== src/Server/Registry/Single.antt =====
-- At most one account is registered at any time, and what the two operations answer.
use weflow_server.Base.{
  ℕ, suc, ◌+◌, ◌^◌, ◌<◌, ◌≡◌, ◌≢◌, refl, sym, ◌∙◌, inl, inr, ◌⊎◌, true, false, not, [], ◌∷◌, Option,
  none, some, arith, Bool-cases, map,
}
use weflow_server.Base.Text.{Text, text_eq, text_eq_iff, text_eq_refl}
use weflow_server.Base.Map.{Map, lookup, insert, remove}
use weflow_server.Store.{empty_store, store_is_empty}
use weflow_server.Sync.{baseline}
use weflow_server.Sync.History.{append, clear, trim_front, id_and_event, next_id}
use weflow_server.Server.Registry.{
  Handle, App, bound_account, BindOutcome, bound, existing, occupied, new_handle, is_live, retire,
  bind, register_account, DeregisterOutcome, deregistered, not_registered, wxid_mismatch,
  reset_stream, deregister_account, current_watermarks, watermarks_of,
}

-- Nothing registered, or one handle under its own id that is not retired.
abbrev pub Single : Map Handle → Type 0
Single [] = Unit
Single ((k, h) ∷ []) = (h.wxid ≡ k) × (h.stopped ≡ false)
Single ((k, h) ∷ e ∷ m) = ⊥

abbrev pub IsValid : App → Type 0
IsValid app = Single app.accounts

-- What a registration of an id leads to, with one account `h` registered: it is refused for another
-- id, it changes nothing for the same one while it is live, and it replaces it otherwise.
abbrev pub Registered : Text → Handle → App → App × BindOutcome × Option Handle → Type 0
Registered wxid h app r =
    ((h.wxid ≢ wxid) × (r ≡ (app, occupied h.wxid h.status, none)))
    ⊎ ((h.wxid ≡ wxid) × (is_live h.status ≡ true) × (r ≡ (app, existing h, none)))
    ⊎ ((h.wxid ≡ wxid)
        × (is_live h.status ≡ false)
        × (r ≡ (
          record app { accounts = (wxid, new_handle wxid) ∷ [] },
          bound (new_handle wxid),
          some (retire h),
        )))

text_ne : (a b : Text) → text_eq a b ≡ false → a ≢ b
text_ne a b h e = let g = (text_eq_iff a b).1 e in absurd cc

bind-empty :
    (wxid : Text) (app : App)
    → app.accounts ≡ []
    → bind wxid app
      ≡ (record app { accounts = (wxid, new_handle wxid) ∷ [] }, bound (new_handle wxid), none)
unfolding insert lookup
bind-empty wxid app e = rw e refl

bind-same :
    (wxid : Text) (h : Handle) (app : App)
    → app.accounts ≡ (wxid, h) ∷ []
    → bind wxid app ≡ (
      record app { accounts = (wxid, new_handle wxid) ∷ [] },
      bound (new_handle wxid),
      some (retire h),
    )
unfolding insert lookup
bind-same wxid h app e = rw (e, text_eq_refl wxid) refl

bound-none : (app : App) → app.accounts ≡ [] → bound_account app.accounts ≡ none
unfolding bound_account
bound-none app e = rw e refl

bound-one :
    (k : Text) (h : Handle) (app : App)
    → app.accounts ≡ (k, h) ∷ []
    → bound_account app.accounts ≡ some h
unfolding bound_account
bound-one k h app e = rw e refl

-- With nothing registered, a registration takes the place.
register_account-first :
    (wxid : Text) (app : App)
    → app.accounts ≡ []
    → register_account wxid app
      ≡ (record app { accounts = (wxid, new_handle wxid) ∷ [] }, bound (new_handle wxid), none)
unfolding register_account
register_account-first wxid app e = rw (bound-none app e, register_account) (bind-empty wxid app e)

-- With an account registered, a registration of another id is refused and changes nothing; one of
-- the same id changes nothing while the account is ready or building its index, and otherwise puts
-- a new handle in its place and retires the old one.
pub register_account-Registered :
    (wxid k : Text) (h : Handle) (app : App)
    → app.accounts ≡ (k, h) ∷ []
    → h.wxid ≡ k
    → Registered wxid h app (register_account wxid app)
unfolding register_account
register_account-Registered wxid k h app e own = elim (Bool-cases (text_eq h.wxid wxid)) [
  | inr other ↦
      inl (text_ne h.wxid wxid other, rw (bound-one k h app e, register_account, other) refl)
  | inl same ↦
      let id = (text_eq_iff h.wxid wxid).0 same in
      elim (Bool-cases (is_live h.status)) [
        | inl live ↦
            inr (inl (id, live, rw (bound-one k h app e, register_account, same, live) refl))
        | inr dead ↦ inr (
            inr (
              id,
              dead,
              rw (bound-one k h app e, register_account, same, dead)
                  (bind-same wxid h app (rw (sym own ∙ id) at e)),
            ))
      ]
]

-- What a deregistration leaves of the account and of the replay.
abbrev pub Deregistered : Text → Handle → App → App × DeregisterOutcome × Option Handle → Type 0
Deregistered wxid h app r =
    ((h.wxid ≢ wxid) × (r ≡ (app, wxid_mismatch h.wxid h.status, none)))
    ⊎ ((h.wxid ≡ wxid)
        × (r.0.accounts ≡ [])
        × (r.0.generation ≡ app.generation + 1)
        × (map id_and_event r.0.history.items ≡ (app.history.last_id + 1, baseline []) ∷ [])
        × (r.1 ≡ deregistered h.status (not (store_is_empty h.store)))
        × (r.2 ≡ some (record (retire h) { store = empty_store })))

reset_stream-empty :
    (now : ℕ) (app : App)
    → app.accounts ≡ []
    → app.history.last_id + 1 < 2 ^ 64
    → map id_and_event (reset_stream now app).history.items
      ≡ (app.history.last_id + 1, baseline []) ∷ []
unfolding reset_stream current_watermarks watermarks_of append clear trim_front
reset_stream-empty now app e room =
    let id : next_id app.history.last_id ≡ app.history.last_id + 1 = omega arith in rw (e, id) refl

reset_stream-rest :
    (now : ℕ) (app : App)
    → ((reset_stream now app).accounts ≡ app.accounts)
      × ((reset_stream now app).generation ≡ suc app.generation)
unfolding reset_stream
reset_stream-rest now app = (refl, refl)

removed : (wxid k : Text) (h : Handle) → k ≡ wxid → remove wxid ((k, h) ∷ []) ≡ []
unfolding remove
removed wxid k h e = rw e (rw (text_eq_refl wxid) refl)

-- A deregistration that names another id than the registered one is refused and changes nothing, in
-- particular not the replay. One of the registered id empties the registry, hands back the retired
-- handle with its index dropped, moves the generation on, and leaves one event to replay: the
-- baseline without watermarks, with the next id, so that ids never repeat.
pub deregister_account-Deregistered :
    (now : ℕ) (wxid k : Text) (h : Handle) (app : App)
    → app.accounts ≡ (k, h) ∷ []
    → h.wxid ≡ k
    → app.history.last_id + 1 < 2 ^ 64
    → Deregistered wxid h app (deregister_account now wxid app)
unfolding deregister_account
deregister_account-Deregistered now wxid k h app e own room =
    elim (Bool-cases (text_eq h.wxid wxid)) [
      | inr other ↦
          inl (text_ne h.wxid wxid other, rw (bound-one k h app e, deregister_account, other) refl)
      | inl same ↦
          let id = (text_eq_iff h.wxid wxid).0 same in
          let gone : remove wxid app.accounts ≡ [] = rw e (removed wxid k h (sym own ∙ id)) in
          let left : App = record app { accounts = remove wxid app.accounts } in
          let rest = reset_stream-rest now left in
          inr (
            id,
            (rw (bound-one k h app e, deregister_account, same) (rest.0 ∙ gone)),
            (rw (bound-one k h app e, deregister_account, same) (rest.1 ∙ omega arith)),
            (rw (bound-one k h app e, deregister_account, same)
                (reset_stream-empty now left gone room)),
            (rw (bound-one k h app e, deregister_account, same) refl),
            (rw (bound-one k h app e, deregister_account, same) refl),
          )
    ]

deregister_account-accounts :
    (now : ℕ) (wxid k : Text) (h : Handle) (app : App)
    → app.accounts ≡ (k, h) ∷ []
    → h.wxid ≡ k
    → ((deregister_account now wxid app).0.accounts ≡ app.accounts)
      ⊎ ((deregister_account now wxid app).0.accounts ≡ [])
unfolding deregister_account
deregister_account-accounts now wxid k h app e own = elim (Bool-cases (text_eq h.wxid wxid)) [
  | inr other ↦ inl (rw (bound-one k h app e, deregister_account, other) refl)
  | inl same ↦
      let gone : remove wxid app.accounts ≡ [] =
        rw e (removed wxid k h (sym own ∙ (text_eq_iff h.wxid wxid).0 same)) in
      inr (
        rw (bound-one k h app e, deregister_account, same)
          ((reset_stream-rest now (record app { accounts = remove wxid app.accounts })).0 ∙ gone))
]

deregister_account-none :
    (now : ℕ) (wxid : Text) (app : App)
    → app.accounts ≡ []
    → deregister_account now wxid app ≡ (app, not_registered, none)
unfolding deregister_account
deregister_account-none now wxid app e = rw (bound-none app e, deregister_account) refl

keeps-Single :
    (now : ℕ) (wxid : Text) (app : App) (accounts : Map Handle)
    → app.accounts ≡ accounts
    → Single accounts
    → Single (register_account wxid app).0.accounts
      × Single (deregister_account now wxid app).0.accounts
keeps-Single now wxid app [] e v = (
  rw (register_account-first wxid app e) (refl, refl),
  rw (deregister_account-none now wxid app e) (rw e tt),
)
keeps-Single now wxid app ((k, h) ∷ []) e v = (
  elim (register_account-Registered wxid k h app e v.0) [
    | inl (other, r) ↦ rw r (rw e v)
    | inr (inl (same, live, r)) ↦ rw r (rw e v)
    | inr (inr (same, dead, r)) ↦ rw r (refl, refl)
  ],
  elim (deregister_account-accounts now wxid k h app e v.0) [
    | inl same ↦ rw (same, e) v
    | inr none_left ↦ rw none_left tt
  ],
)
keeps-Single now wxid app ((k, h) ∷ x ∷ m) e v = elim v [ ]

-- Registering and deregistering keep at most one account, under its own id and not retired.
pub register_account-IsValid :
    (now : ℕ) (wxid : Text) (app : App)
    → IsValid app
    → IsValid (register_account wxid app).0 × IsValid (deregister_account now wxid app).0
register_account-IsValid now wxid app v = keeps-Single now wxid app app.accounts refl v
