-- ===== src/Config/Sample.antt =====
-- A small environment for tests of backend/app/services/wireguard.py: ids are written in unary.
use midscale.Prelude.{ℕ, zero, suc, String, true, some, ◌≡◌, refl, sym, ap, ◌∙◌, str_eq, eq_iff}
use midscale.Prelude.Int.{pos}
use midscale.Prelude.Texts.{count_chars}
use midscale.Config.{UuidText}
use midscale.Config.Build.{Environment}

abbrev pub unary : ℕ → String
unary zero = ""
unary (suc n) = String.◌∷◌ "1" (unary n)

count_chars-unary : (n : ℕ) → count_chars (unary n) ≡ n
unfolding count_chars
count_chars-unary zero = refl
count_chars-unary (suc n) = ap suc (count_chars-unary n)

pub unary_inj : (a b : ℕ) → str_eq (unary a) (unary b) ≡ true → a ≡ b
unary_inj a b h =
    sym (count_chars-unary a)
    ∙ ap count_chars ((eq_iff (unary a) (unary b)).0 h)
    ∙ count_chars-unary b

abbrev pub uuid : UuidText
uuid = record { str = unary; str_inj = unary_inj }

abbrev pub environment : Environment
environment = record {
  uuid = uuid;
  settings = record { wireguard_server_endpoint = "vpn.example"; wireguard_port = pos 51820 };
  wireguard_topology = "hybrid";
  relay_endpoint = "127.0.0.1:8765";
  list_set = λ xs. xs;
  prefixlen = λ s. some "24";
  config_hash = λ c. "h1";
}
