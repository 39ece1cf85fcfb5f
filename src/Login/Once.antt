-- ===== src/Login/Once.antt =====
-- What a login leaves behind: a challenge that is spent, and a session that authenticates requests until
-- it expires or is logged out.
use lan_qin_email.Prelude.{
  if◌then◌else◌, ℕ, ◌+◌, ◌*◌, ◌≡◌, refl, sym, ap, ◌∙◌, subst, Bool, true, false, ◌||◌, not, none,
  some, List, [], ◌∷◌, ◌++◌, ltb, arith, inl, inr, Bool-cases, Option-cases, any, and_true,
}
use lan_qin_email.Prelude.Text.{Text, text_eq_iff, text_eq_refl, is_empty, trim_space}
use lan_qin_email.Prelude.Rows.{select_first, select_first-none, keep_rows}
use lan_qin_email.Prelude.Members.{IsKey-eq, Memᴰ-keep_rows, select_first-only, any-Memᴰ}
use mathlib.Core.List.{Memᴰ}
use lan_qin_email.Queue.{hour}
use lan_qin_email.Login.{
  LoginLib, Config, Account, Token, State, Request, Answer, hash_token, id_is, hash_is, other_id,
}
use lan_qin_email.Login.Stages.{
  handle_login, handle_logout, live_session, user_of, authenticate_request,
}
use lan_qin_email.Login.Conditions.{
  by_password, by_code, IsWellFormed, user_logged_in, IsLogin, after_password, after_code,
}
use lan_qin_email.Login.MayLogin.{login_sound, login-MayLogin, MayLogin-handle_login}

-- the session of a login
abbrev session_of : LoginLib → Config → Request → Text → Token
session_of lib cfg req user = record {
  id = req.new_id;
  user_id = user;
  token_hash = hash_token lib req.random_token;
  expires_at = req.now + cfg.session_ttl_hours * hour;
}

-- what a login that gives a session leaves: the session, the users, and no challenge of its token
record IsLeft (lib : LoginLib) (cfg : Config) (req : Request) (s : State) (user : Text) (s' : State)
    : Type 0 where
  sessions : s'.sessions ≡ s.sessions ++ session_of lib cfg req user ∷ []
  users : s'.users ≡ s.users
  spent :
      is_empty (trim_space req.challenge_token) ≡ false
      → (c : Token) → Memᴰ c s'.challenges
      → c.token_hash ≡ hash_token lib req.challenge_token
      → ◌≡◌ {A = Bool} true false

IsLogin-IsLeft :
    {lib : LoginLib} {cfg : Config} {req : Request} {s : State} {user : Text} {r : Answer × State}
    → IsWellFormed s
    → IsLogin lib cfg req s user r
    → IsLeft lib cfg req s user r.1
IsLogin-IsLeft {lib} {cfg} {req} {s} w (after_password u blank m d g e) = record {
  sessions =
      ap (λ (r : Answer × State). r.1.sessions) e
      ∙ ap (λ i. s.sessions ++ session_of lib cfg req i ∷ []) g;
  users = ap (λ (r : Answer × State). r.1.users) e;
  spent = λ given c n h. sym blank ∙ given;
}
IsLogin-IsLeft {lib} {cfg} {req} {s} {user} {r} w (after_code c u secret m h n d g e) = record {
  sessions =
      ap (λ (z : Answer × State). z.1.sessions) e
      ∙ ap (λ i. s.sessions ++ session_of lib cfg req i ∷ []) g;
  users = ap (λ (z : Answer × State). z.1.users) e;
  spent = λ given x k l.
      let rows : r.1.challenges ≡ keep_rows (other_id c.id) s.challenges =
        ap (λ (z : Answer × State). z.1.challenges) e in
      let (o, other) = Memᴰ-keep_rows (other_id c.id) s.challenges x (subst (Memᴰ x) rows k) in
      let same = IsKey-eq (λ (y : Token). y.token_hash) s.challenges x c w.hashes o m (l ∙ sym h) in
      sym other ∙ ap (λ (y : Token). other_id c.id y) same ∙ ap not (text_eq_refl c.id);
}

module _ (lib : LoginLib) (cfg : Config) (req : Request) (s : State) (user : Text)
    (w : IsWellFormed s) (given : user_logged_in (handle_login lib cfg req s).0 ≡ some user) where
  handle_login-IsLogin : IsLogin lib cfg req s user (handle_login lib cfg req s)
  handle_login-IsLogin =
      MayLogin-handle_login lib cfg req s user w ((login-MayLogin lib cfg req s user w).0 given)

  handle_login-IsLeft : IsLeft lib cfg req s user (handle_login lib cfg req s).1
  handle_login-IsLeft = IsLogin-IsLeft w handle_login-IsLogin

-- A challenge is spent by the login that it gives a session: no later login with its token, whatever
-- the code and the time, gives one. The unique columns of the tables hold no value twice.
pub challenge-spent :
    (lib : LoginLib) (cfg : Config) (req again : Request) (s : State) (user : Text)
    → IsWellFormed s
    → is_empty (trim_space req.challenge_token) ≡ false
    → again.challenge_token ≡ req.challenge_token
    → user_logged_in (handle_login lib cfg req s).0 ≡ some user
    → user_logged_in (handle_login lib cfg again (handle_login lib cfg req s).1).0 ≡ none
challenge-spent lib cfg req again s user w code same given =
    let s' = (handle_login lib cfg req s).1 in
    let left = handle_login-IsLeft lib cfg req s user w given in
    elim (Option-cases (user_logged_in (handle_login lib cfg again s').0)) [
      | inl nobody ↦ nobody
      | inr (other, twice) ↦ elim (login_sound lib cfg again s' other twice) [
        | by_password u blank m e g d p t v a ↦ absurd (
            let k : is_empty (trim_space req.challenge_token) ≡ true =
              ap (λ t. is_empty (trim_space t)) (sym same) ∙ blank in
            cc)
        | by_code c u secret here m e live n f g o b d a v ↦
            absurd (let k = left.spent code c m (e ∙ ap (λ t. hash_token lib t) same) in cc)
      ]
    ]

or_false : (a b : Bool) → (a || b) ≡ false → (a ≡ false) × (b ≡ false)
or_false a b h = ground arith

-- no session of a token is left behind its logout
logged_out :
    (lib : LoginLib) (cookie : Text) (now : ℕ) (rows : List Token)
    → select_first
        (live_session lib now cookie)
        (keep_rows (λ t. not (hash_is (hash_token lib cookie) t)) rows)
      ≡ none
logged_out lib cookie now rows =
    let hash = hash_token lib cookie in
    let kept = keep_rows (λ t. not (hash_is hash t)) rows in
    select_first-none (live_session lib now cookie) kept
      (elim (Bool-cases (any (live_session lib now cookie) kept)) [
        | inr unmet ↦ unmet
        | inl some_met ↦
            let (t, m, h) = any-Memᴰ (live_session lib now cookie) kept some_met in
            let (n, other) = Memᴰ-keep_rows (λ z. not (hash_is hash z)) rows t m in
            let (mine, later) = and_true (hash_is hash t) (ltb now t.expires_at) h in
            absurd (let k : not (hash_is hash t) ≡ true = other in cc)
      ])

-- the account of a login
IsLogin-account :
    {lib : LoginLib} {cfg : Config} {req : Request} {s : State} {user : Text} {r : Answer × State}
    → IsLogin lib cfg req s user r
    → (u : Account) × Memᴰ u s.users × (u.disabled ≡ false) × (u.id ≡ user)
IsLogin-account (after_password u blank m d g e) = (u, m, d, g)
IsLogin-account (after_code c u secret n h m d g e) = (u, m, d, g)

-- the session of a login is found while it is live, where its token hash is new
found-session :
    (lib : LoginLib) (cookie : Text) (now : ℕ) (rows : List Token) (t : Token)
    → any (hash_is (hash_token lib cookie)) rows ≡ false
    → select_first (live_session lib now cookie) (rows ++ t ∷ [])
      ≡ (if live_session lib now cookie t then some t else none)
unfolding select_first
found-session lib cookie now [] t fresh = refl
found-session lib cookie now (r ∷ rows) t fresh =
    let (h, hs) =
      or_false (hash_is (hash_token lib cookie) r) (any (hash_is (hash_token lib cookie)) rows)
        fresh in
    rw h (found-session lib cookie now rows t hs)

user_of-if :
    (users : List Account) (live : Bool) (t : Token) (u : Account)
    → select_first (id_is t.user_id) users ≡ some u
    → u.disabled ≡ false
    → user_of users (if live then some t else none) ≡ (if live then some u else none)
user_of-if users true t u h d = rw (h, d) refl
user_of-if users false t u h d = refl

-- The cookie of a login authenticates the user of the login exactly before the session expires, and at
-- no time once it is logged out, for a token whose hash no other session has.
pub session-authenticate_request :
    (lib : LoginLib) (cfg : Config) (req : Request) (s : State) (user : Text) (now : ℕ)
    → IsWellFormed s
    → is_empty req.random_token ≡ false
    → any (hash_is (hash_token lib req.random_token)) s.sessions ≡ false
    → user_logged_in (handle_login lib cfg req s).0 ≡ some user
    → let s' = (handle_login lib cfg req s).1 in
      (u : Account) × (u.id ≡ user)
      × (authenticate_request lib now req.random_token s'
          ≡ (if ltb now (req.now + cfg.session_ttl_hours * hour) then some u else none))
      × (authenticate_request lib now req.random_token (handle_logout lib req.random_token s')
          ≡ none)
unfolding authenticate_request handle_logout
session-authenticate_request lib cfg req s user now w token fresh given =
    let s' = (handle_login lib cfg req s).1 in
    let t = session_of lib cfg req user in
    let left = handle_login-IsLeft lib cfg req s user w given in
    let (u, m, d, g) = IsLogin-account (handle_login-IsLogin lib cfg req s user w given) in
    let alive : live_session lib now req.random_token t ≡ ltb now t.expires_at =
      rw (text_eq_refl (hash_token lib req.random_token)) refl in
    let found = found-session lib req.random_token now s.sessions t fresh in
    let account = select_first-only (id_is user) s.users u m ((text_eq_iff u.id user).1 g) (λ z n h.
      IsKey-eq (λ (y : Account). y.id) s.users z u w.ids n m
        ((text_eq_iff z.id user).0 h ∙ sym g)) in
    (
      u,
      g,
      rw (token, left.sessions, found, alive, left.users)
          (user_of-if s.users (ltb now t.expires_at) t u account d),
      rw (token, logged_out lib req.random_token now s'.sessions) refl,
    )
