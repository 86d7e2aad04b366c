-- ===== src/Tests/Sample.antt =====
-- A library parameter for the tests: no letter beyond ASCII, and a URL parser that is enough for
-- plain URLs of the form `scheme://host/path` and for texts without a scheme.
use srvgov_cli.Prelude.{false, Option, none, some, [], ◌∷◌}
use srvgov_cli.GoText.{Text, codes, Std, Url, cut, trim_prefix}
use srvgov_cli.Audit.Fingerprints.{Digest}

abbrev pub behind_slash : Text → Text
behind_slash t = elim (cut t b'/') [ none ↦ [] | some (_, p) ↦ b'/' ∷ p ]

abbrev pub before_slash : Text → Text
before_slash t = elim (cut t b'/') [ none ↦ t | some (h, _) ↦ h ]

abbrev pub plain_url : Text → Option Url
unfolding cut trim_prefix
plain_url t = elim (cut t b':') [
  | none ↦ some (record { scheme = []; host = []; path = t })
  | some (s, r) ↦
      let r' = trim_prefix r "//" in
      some (record { scheme = s; host = before_slash r'; path = behind_slash r' })
]

instance abbrev pub ascii : Std
ascii = record {
  lower_wide = λ c. c;
  upper_wide = λ c. c;
  fold_wide = λ a b. false;
  letter_wide = λ c. false;
  digit_wide = λ c. false;
  url_parse = plain_url;
}

-- A digest for the tests that is the same for every text.
instance abbrev pub zeros : Digest
zeros = record {
  sha256_hex = λ t. codes "0000000000000000000000000000000000000000000000000000000000000000";
}
