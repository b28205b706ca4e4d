-- ===== src/Config/Tests/Machine.antt =====
-- A concrete platform: fractional numbers are counts of hundredths, or NaN; letters are ASCII. Its file
-- system writes a fixed text for one configuration.
use subx_core.Prelude.{
  ℕ, ◌≡◌, refl, sym, ap, arith, Bool, true, false, Option, none, some, Text, codes, ltb, leb, ◌=ᵗ◌,
  if◌then◌else◌,
}
use native.Mathlib.Decide.{ℕ_discrete}
use subx_core.Std.{
  parse_uint, digits_from, scan_digits, show_uint, max_u32, to_ascii_lowercase, ascii_lower,
  starts_with,
}
use subx_core.Std.Decimal.{parse_uint-show_uint, parse_uint-le}
use subx_core.Config.Platform.{Platform}
use subx_core.Config.Types.{Config}
use subx_core.Config.Defaults.{default_config}
use subx_core.Config.Store.{System, as_stored}
use subx_core.Config.Service.Laws.{PlatformLaws}

unfoldable pub read_number : Text → Option (Option ℕ)
read_number v = elim (parse_uint max_u32 v) [
  | some n ↦ some (some n)
  | none ↦ if v =ᵗ codes "NaN" then some none else none
]

unfoldable pub show_number : Option ℕ → Text
show_number none = codes "NaN"
show_number (some n) = show_uint n

unfoldable pub both : (ℕ → ℕ → Bool) → Option ℕ → Option ℕ → Bool
both test none y = false
both test (some a) none = false
both test (some a) (some b) = test a b

abbrev pub machine : Platform
machine = record {
  Float = Option ℕ;
  parse_float = read_number;
  show_float = show_number;
  lt = both ltb;
  le = both leb;
  hundredths = λ n. some n;
  to_lowercase = to_ascii_lowercase;
  url_scheme = λ url. if starts_with url (codes "https:") then some (codes "https") else none;
}

reads_nan : read_number (codes "NaN") ≡ some none
unfolding read_number parse_uint digits_from scan_digits ◌=ᵗ◌
reads_nan = refl

reads_shown :
    (v : Text) (x : Option ℕ) → read_number v ≡ some x → read_number (show_number x) ≡ some x
unfolding show_number read_number
reads_shown v none h = reads_nan
reads_shown v (some n) h =
    let known : parse_uint max_u32 v ≡ some n = ground arith in
    rw (parse_uint-show_uint max_u32 n (parse_uint-le max_u32 v known), read_number)

pub machine_laws : PlatformLaws machine
unfolding to_ascii_lowercase ascii_lower
machine_laws = record { show_reads = reads_shown; lower_true = refl; lower_false = refl }

abbrev pub start : Config machine
start = default_config machine 8

abbrev pub with_retries : ℕ → Config machine
with_retries n = record start { ai = record (start.ai) { retry_attempts = n } }

pub Config-discrete : Discrete (Config machine)
Config-discrete = hlevel (ℕ_discrete)

-- The one configuration that the file of the example can hold, and its text.
abbrev pub target : Config machine
target = with_retries 5

abbrev pub target_text : Text
target_text = codes "retry_attempts = 5"

unfoldable pub write_target : Config machine → Option Text
write_target c = elim (Config-discrete c target) [ yes e ↦ some target_text | no n ↦ none ]

abbrev pub disk : System machine
disk = record {
  to_toml = write_target;
  from_toml = λ t. some (as_stored machine target);
  cpus = 8;
  has_config_path = true;
  readable = true;
  writable = true;
}

pub disk_writes : write_target target ≡ some target_text
unfolding write_target
disk_writes = by_decision (Config-discrete target target)
  where
    by_decision :
        (d : Dec (target ≡ target))
        → (elim d [ yes e ↦ some target_text | no n ↦ none ]) ≡ some target_text
    by_decision (yes e) = refl
    by_decision (no n) = absurd (n refl)

pub disk_reads :
    (c : Config machine) (t : Text)
    → write_target c ≡ some t
    → disk.from_toml t ≡ some (as_stored machine c)
unfolding write_target
disk_reads c t = by_decision (Config-discrete c target)
  where
    by_decision :
        (d : Dec (c ≡ target))
        → (elim d [ yes e ↦ some target_text | no n ↦ none ]) ≡ some t
        → disk.from_toml t ≡ some (as_stored machine c)
    by_decision (yes e) h = ap (λ x. some (as_stored machine x)) (sym e)
    by_decision (no n) h = cc
