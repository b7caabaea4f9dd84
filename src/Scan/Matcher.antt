-- ===== src/Scan/Matcher.antt =====
-- What the scans take from the crate aho_corasick: the automaton of a list of patterns reports the
-- matches in a text's bytes, without regard to ASCII case, by the indices of their patterns.
use acip_sidecar.Prelude.{ℕ, List}
use acip_sidecar.Text.{Text}

pub record AhoCorasick : Type 0 where
  pub find_iter : List Text → List ℕ → List ℕ
