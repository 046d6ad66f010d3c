-- ===== src/Device.antt =====
-- pkg/oauth2/device/client.go: how the client comes by an access token, with a refresh token or by the
-- device flow. The OpenID library, the prompt and the credential store are parameters.
use data_telemetry.Prelude.{
  ℕ, String, ◌≡◌, refl, sym, ◌∙◌, ◌&&◌, not, str_eq, if◌then◌else◌, Bool-cases, inl, inr, ◌≢◌, ◌⊎◌,
  eq_iff,
}
use mathlib.Core.Path.{subst}
use data_telemetry.Errors.{Result, ok, fail}
use data_telemetry.Action.{Action, labelled, ◌>>=◌, ◌>>◌}
use data_telemetry.Action.Ensures.{
  Post, Post-bind, Post-of_world, Keeps, Keeps-bind, Keeps-labelled,
}

-- auth.Credential and oauth2.Token
pub record Credential : Type 0 where
  pub access_token : String
  pub refresh_token : String

pub record Token : Type 0 where
  pub access_token : String
  pub token_type : String
  pub refresh_token : String
  pub expires_in : ℕ

pub record DeviceResponse : Type 0 where
  pub verification_uri : String
  pub user_code : String
  pub device_code : String
  pub interval : ℕ

pub record Provider (W : Type 0) : Type 0 where
  -- credStore.Get and credStore.Put for the host
  pub get_credential : Action W Credential
  pub put_credential : Credential → Action W (Unit {0})
  pub refresh_tokens : String → Action W Token
  pub device_authorization : Action W DeviceResponse
  pub prompt : String → String → Action W (Unit {0})
  -- DeviceAccessToken of a device code, asked for again after each interval
  pub device_access_token : String → ℕ → Action W Token

-- The credential of a store that gives none.
abbrev pub no_credential : Credential
no_credential = record { access_token = ""; refresh_token = "" }

abbrev pub credential_or_none : Result Credential → Credential
credential_or_none (ok c) = c
credential_or_none (fail e) = no_credential

-- The credential that is stored: a token without a refresh token keeps the old one.
unfoldable pub new_credential : Credential → Token → Credential
new_credential old t = record {
  access_token = t.access_token;
  refresh_token =
      if str_eq t.refresh_token "" && not (str_eq old.refresh_token "")
      then old.refresh_token
      else t.refresh_token;
}

module _ {W : Type 0} (p : Provider W) where
  unfoldable pub authorize_device : Action W Token
  authorize_device = do
    response ← labelled "starting device authorization flow" p.device_authorization
    labelled "prompting user interaction" (p.prompt response.verification_uri response.user_code)
    labelled "starting access token polling"
        (p.device_access_token response.device_code response.interval)

  -- After a refresh that failed, and without a refresh token, the device flow begins.
  abbrev pub refreshed : Result Token × W → Result Token × W
  refreshed (ok t, w) = (ok t, w)
  refreshed (fail e, w) = labelled "resolving device access token" authorize_device w

  unfoldable pub resolve_token : Credential → Action W Token
  unfolding authorize_device
  resolve_token c w =
      if str_eq c.refresh_token ""
      then labelled "resolving device access token" authorize_device w
      else refreshed (p.refresh_tokens c.refresh_token w)

  -- An error of the store is only logged.
  unfoldable pub store_token : Credential → Token → Action W Token
  unfolding new_credential
  store_token c t w = (ok t, (p.put_credential (new_credential c t) w).1)

  unfoldable pub refresh_token_or_authorize : Action W Token
  unfolding resolve_token store_token
  refresh_token_or_authorize w =
      let (r, w') = p.get_credential w in
      (resolve_token (credential_or_none r) >>= store_token (credential_or_none r)) w'

-- A store that works, seen through the credential that it holds, and a provider that leaves it alone.
pub record IsStoring {W : Type 0} (p : Provider W) : Type 0 where
  pub stored : W → Credential
  pub gets : (w : W) → p.get_credential w ≡ (ok (stored w), w)
  pub puts : (c : Credential) (w : W) → stored (p.put_credential c w).1 ≡ c
  pub refreshes : (s : String) (w : W) → stored (p.refresh_tokens s w).1 ≡ stored w
  pub authorizes : (w : W) → stored (p.device_authorization w).1 ≡ stored w
  pub prompts : (uri code : String) (w : W) → stored (p.prompt uri code w).1 ≡ stored w
  pub polls : (code : String) (i : ℕ) (w : W) → stored (p.device_access_token code i w).1 ≡ stored w

module _ {W : Type 0} (p : Provider W) (s : IsStoring p) (c : Credential) where
  abbrev Holds : W → Type 0
  Holds w = s.stored w ≡ c

  authorize_device-Keeps : Keeps Holds (authorize_device p)
  unfolding authorize_device
  authorize_device-Keeps =
      Keeps-bind Holds (labelled "starting device authorization flow" p.device_authorization) _
        (Keeps-labelled Holds "starting device authorization flow" p.device_authorization
          (λ w h. Post-of_world Holds _ (s.authorizes w ∙ h)))
        λ response.
          Keeps-bind Holds
            (labelled "prompting user interaction"
              (p.prompt response.verification_uri response.user_code))
            _
            (Keeps-labelled Holds "prompting user interaction"
              (p.prompt response.verification_uri response.user_code)
              (λ w h. Post-of_world Holds _ (s.prompts _ _ w ∙ h)))
            λ u.
              Keeps-labelled Holds "starting access token polling"
                (p.device_access_token response.device_code response.interval)
                (λ w h. Post-of_world Holds _ (s.polls _ _ w ∙ h))

  refreshed-Keeps : (r : Result Token × W) → Holds r.1 → Post (λ t w. Holds w) Holds (refreshed p r)
  refreshed-Keeps (ok t, w) h = h
  refreshed-Keeps (fail e, w) h =
      Keeps-labelled Holds "resolving device access token" (authorize_device p)
        authorize_device-Keeps w h

  resolve_token-Keeps : (old : Credential) → Keeps Holds (resolve_token p old)
  unfolding resolve_token
  resolve_token-Keeps old w h = elim (Bool-cases (str_eq old.refresh_token "")) [
    | inl empty ↦ rw empty (
        Keeps-labelled Holds "resolving device access token" (authorize_device p)
          authorize_device-Keeps w h)
    | inr given ↦ rw given (
        refreshed-Keeps (p.refresh_tokens old.refresh_token w)
          (s.refreshes old.refresh_token w ∙ h))
  ]

-- What is stored after a token: the access token, and the refresh token, if the token brings one, or
-- else that which was stored before.
abbrev pub IsRenewed : Credential → Token → Credential → Type 0
IsRenewed old t new =
    (new.access_token ≡ t.access_token)
    × (((t.refresh_token ≢ "") × (new.refresh_token ≡ t.refresh_token))
        ⊎ ((t.refresh_token ≡ "") × (new.refresh_token ≡ old.refresh_token)))

new_credential-IsRenewed : (old : Credential) (t : Token) → IsRenewed old t (new_credential old t)
unfolding new_credential
new_credential-IsRenewed old t = elim (Bool-cases (str_eq t.refresh_token "")) [
  | inr given ↦ (refl, inl (λ e. cc (given, (eq_iff t.refresh_token "").1 e), rw given refl))
  | inl none' ↦ elim (Bool-cases (str_eq old.refresh_token "")) [
    | inr kept ↦ (refl, inr ((eq_iff t.refresh_token "").0 none', rw (none', kept) refl))
    | inl empty ↦ (
      refl,
      inr (
        (eq_iff t.refresh_token "").0 none',
        rw (none', empty)
            ((eq_iff t.refresh_token "").0 none' ∙ sym ((eq_iff old.refresh_token "").0 empty)),
      ),
    )
  ]
]

-- With a store that works and that the provider leaves alone, after a token that is returned the store
-- holds its access token, and its refresh token or, if it brings none, the one stored before; an error
-- leaves the stored credential as it was.
pub refresh_token_or_authorize-stored :
    {W : Type 0} (p : Provider W) (s : IsStoring p) (w : W)
    → Post
        (λ t w'. IsRenewed (s.stored w) t (s.stored w'))
        (λ w'. s.stored w' ≡ s.stored w)
        (refresh_token_or_authorize p w)
unfolding refresh_token_or_authorize store_token
refresh_token_or_authorize-stored p s w = rw (s.gets w) (
    Post-bind (resolve_token p (s.stored w)) (store_token p (s.stored w)) w
      (λ t w'. s.stored w' ≡ s.stored w) (λ t w'. IsRenewed (s.stored w) t (s.stored w'))
      (λ w'. s.stored w' ≡ s.stored w) (resolve_token-Keeps p s (s.stored w) (s.stored w) w refl)
      (λ t w' h.
        subst (λ c. IsRenewed (s.stored w) t c) (sym (s.puts (new_credential (s.stored w) t) w'))
          (new_credential-IsRenewed (s.stored w) t)))
