-- ===== src/Tests/Tokens.antt =====
-- An example for pkg/oauth2/device/client.go: a world that is the stored credential, and an identity
-- provider that refuses to refresh a token and gives one, without a refresh token, to a device.
use data_telemetry.Prelude.{◌≡◌, refl}
use data_telemetry.Errors.{ok, fail, message}
use data_telemetry.Action.Ensures.{Post}
use data_telemetry.Device.{
  Credential, Token, Provider, IsStoring, IsRenewed, refresh_token_or_authorize,
  refresh_token_or_authorize-stored,
}

abbrev old : Credential
old = record { access_token = "a"; refresh_token = "r" }

abbrev token : Token
token = record { access_token = "b"; token_type = "Bearer"; refresh_token = ""; expires_in = 60 }

abbrev provider : Provider Credential
provider = record {
  get_credential = λ w. (ok w, w);
  put_credential = λ c w. (ok tt, c);
  refresh_tokens = λ s w. (fail (message "expired"), w);
  device_authorization = λ w. (
    ok (record {
      verification_uri = "https://id";
      user_code = "U";
      device_code = "D";
      interval = 5;
    }),
    w,
  );
  prompt = λ uri code w. (ok tt, w);
  device_access_token = λ code i w. (ok token, w);
}

abbrev provider-IsStoring : IsStoring provider
provider-IsStoring = record {
  stored = λ w. w;
  gets = λ w. refl;
  puts = λ c w. refl;
  refreshes = λ s w. refl;
  authorizes = λ w. refl;
  prompts = λ uri code w. refl;
  polls = λ code i w. refl;
}

refresh_token_or_authorize-stored_example :
    Post (λ t w. IsRenewed old t w) (λ w. w ≡ old) (refresh_token_or_authorize provider old)
refresh_token_or_authorize-stored_example =
    refresh_token_or_authorize-stored provider provider-IsStoring old
