-- ===== src/Kpi/Text.antt =====
-- The two functions of the package strings that the checks of a KPI use: what they do to letters
-- outside ASCII is the Unicode tables', so they are a parameter.
use mirador_core.Prelude.{String}

pub record TextFunctions : Type 0 where
  pub to_lower : String → String
  pub trim_space : String → String

-- `strings.ToLower(strings.TrimSpace(s))`.
abbrev pub norm : TextFunctions → String → String
norm t s = t.to_lower (t.trim_space s)

-- An instance: texts that are lower case and trimmed already.
abbrev pub plain : TextFunctions
plain = record { to_lower = λ s. s; trim_space = λ s. s }
