-- ===== src/Check/Probe.antt =====
-- CheckJobSpec, probeScript and shSingleQuote of projection/check.go.
use orbitjob.Prelude.{
  ℕ, ◌+◌, ◌-◌, String, List, [], ◌∷◌, ◌++◌, Option, none, some, Bytes, codes, eqb, if◌then◌else◌,
}
use orbitjob.Prelude.Int.{ℤ, pos, negsuc}
use orbitjob.Execution.{itoa}
use orbitjob.Check.{ProbeConfig, Snapshot, to_int32}

abbrev pub quote : ℕ
quote = 39

abbrev pub backslash : ℕ
backslash = 92

-- strings.ReplaceAll(s, "'", `'\''`)
unfoldable pub escape : Bytes → Bytes
escape [] = []
escape (c ∷ s) =
    let rest = escape s in
    if eqb c quote then quote ∷ (backslash ∷ (quote ∷ (quote ∷ rest))) else c ∷ rest

unfoldable pub sh_single_quote : Bytes → Bytes
unfolding escape
sh_single_quote s = quote ∷ (escape s ++ (quote ∷ []))

-- The script up to the URL, and from the URL on.
abbrev pub script_head : ProbeConfig → ℕ → Bytes
script_head p timeout =
    codes "code=$(curl -sS -o /dev/null -w '%{http_code}' --max-time "
    ++ (itoa timeout ++ (codes " -X " ++ (p.method ++ codes " ")))

abbrev pub script_tail : ProbeConfig → Bytes
script_tail p = codes "); [ \"$code\" = " ++ (itoa p.expected_status ++ codes " ]")

unfoldable pub probe_script : ProbeConfig → ℕ → Bytes
unfolding sh_single_quote itoa
probe_script p timeout = script_head p timeout ++ (sh_single_quote p.url ++ script_tail p)

abbrev pub probe_image : String
probe_image =
    "curlimages/curl@sha256:58adaa4e8dca9c988bae2aba4ab3434a0bb2da16bbe3f92dec39ec7785166777"

-- The fields of ScheduledJobSpec that are set; the schedule stays empty.
pub record CheckSpec : Type 0 where
  pub timeout_seconds : ℤ
  pub max_attempts : ℤ
  pub image : String
  pub command : List String
  pub args : List Bytes

-- A timeout below 1 is 30.
abbrev pub effective_timeout : ℤ → ℕ
effective_timeout (pos n) = if eqb n 0 then 30 else n
effective_timeout (negsuc n) = 30

-- n + 1
abbrev pub next_ℤ : ℤ → ℤ
next_ℤ (pos n) = pos (n + 1)
next_ℤ (negsuc n) = if eqb n 0 then pos 0 else negsuc (n - 1)

abbrev spec_of : Snapshot → Option ProbeConfig → Option CheckSpec
spec_of c none = none
spec_of c (some probe) = some (record {
  timeout_seconds = to_int32 (pos (effective_timeout c.timeout_sec));
  max_attempts = to_int32 (next_ℤ c.retry_limit);
  image = probe_image;
  command = "/bin/sh" ∷ ("-c" ∷ []);
  args = probe_script probe (effective_timeout c.timeout_sec) ∷ [];
})

-- none is an invalid configuration.
unfoldable pub check_job_spec : Snapshot → Option CheckSpec
unfolding probe_script
check_job_spec c = spec_of c c.probe
