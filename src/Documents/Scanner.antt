-- ===== src/Documents/Scanner.antt =====
-- The malware scan (documents/infrastructure/scanner.py) behind the socket: the answer of the ClamAV
-- daemon is an argument, `none` where it cannot be reached.
use biaice.Common.{
  ℕ, ◌≡◌, ◌≢◌, Bool, true, false, ◌&&◌, ◌||◌, Option, none, some, [], ◌∷◌, ◌++◌, Text, codes,
  if◌then◌else◌, arith, leb, any, all, ◌==◌, subst,
}
use biaice.Core.Errors.{Result, ok, err, index_error, ◌>>=◌, >>=-eq-ok, ok_inj}
use biaice.Documents.Model.{ScanResult, clean, infected, scan_error, is_scan_clean}
use biaice.Documents.Intake.{starts_with, contains_part}

-- The texts of the details are left out.
pub record ClamAvScanResult : Type 0 where
  pub result : ScanResult
  pub signature_version : Text

unfoldable pub eicar_signature : Text
eicar_signature =
    codes "X5O!P%@AP[4" ++ codes "\\PZX54(P^)7CC)7}$EICAR-STANDARD-ANTIVIRUS-TEST-FILE!$H+H*"

-- `text[:n]`
unfoldable pub first : ℕ → Text → Text
first ℕ.zero t = []
first (ℕ.suc n) [] = []
first (ℕ.suc n) (c ∷ t) = c ∷ first n t

unfoldable pub is_eicar_test_file : Text → Bool
unfolding first
is_eicar_test_file payload =
    contains_part eicar_signature (first 4096 payload)
    || starts_with (first 20 eicar_signature) payload

unfoldable pub eicar_scan : Text → Bool → ClamAvScanResult
eicar_scan payload clamav_reached =
    if is_eicar_test_file payload
    then record { result = infected; signature_version = codes "eicar-1.0" }
    else record {
      result = clean;
      signature_version =
          if clamav_reached then codes "clamav-instream" else codes "eicar-inline-1.0";
    }

-- `c.isspace()`
abbrev is_space : ℕ → Bool
is_space c =
    (leb 9 c && leb c 13)
    || ((leb 28 c && leb c 32)
        || (any (λ w. c == w) (133 ∷ 160 ∷ 5760 ∷ 8232 ∷ 8233 ∷ 8239 ∷ 8287 ∷ 12288 ∷ [])
            || (leb 8192 c && leb c 8202)))

-- `answer.split("FOUND", 1)[0]`
before_found : Text → Text
before_found [] = []
before_found (c ∷ t) =
    let rest = before_found t in if starts_with (codes "FOUND") (c ∷ t) then [] else c ∷ rest

-- `answer.split("FOUND", 1)[0].split()` is empty, so that it has no last word.
unfoldable pub has_no_name : Text → Bool
unfolding before_found
has_no_name answer = all is_space (before_found answer)

-- The reading of the daemon's answer at the end of `scan_clamav_tcp`. The name of the virus is the last
-- word before FOUND; where there is none, the IndexError is not caught.
unfoldable pub read_answer : Text → Result ClamAvScanResult
read_answer answer =
    if contains_part (codes "FOUND") answer
    then if has_no_name answer
      then err index_error
      else ok (record { result = infected; signature_version = codes "clamav-instream" })
    else if contains_part (codes "OK") answer
    then ok (record { result = clean; signature_version = codes "clamav-instream" })
    else ok (record { result = scan_error; signature_version = codes "clamav-instream" })

abbrev pub is_scan_infected : ScanResult → Bool
is_scan_infected infected = true
is_scan_infected _ = false

abbrev is_scan_error : ScanResult → Bool
is_scan_error scan_error = true
is_scan_error _ = false

-- The decision of `scan_bytes` on what the daemon said.
unfoldable pub decide : Text → Option ClamAvScanResult → ClamAvScanResult
decide payload none = eicar_scan payload false
decide payload (some r) =
    if is_scan_error r.result
    then eicar_scan payload false
    else if is_scan_clean r.result && is_eicar_test_file payload
    then eicar_scan payload true
    else r

abbrev pub read_if : Option Text → Result (Option ClamAvScanResult)
read_if none = ok none
read_if (some answer) = read_answer answer >>= λ r. ok (some r)

unfoldable pub scan_bytes : (Text → Option Text) → Text → Result ClamAvScanResult
unfolding decide
scan_bytes daemon payload = read_if (daemon payload) >>= λ o. ok (decide payload o)

eicar_scan-ne-error : (payload : Text) (b : Bool) → (eicar_scan payload b).result ≢ scan_error
unfolding eicar_scan
eicar_scan-ne-error payload b = ground arith

decide-ne-error :
    (payload : Text) (o : Option ClamAvScanResult) → (decide payload o).result ≢ scan_error
unfolding decide
decide-ne-error payload none = eicar_scan-ne-error payload false
decide-ne-error payload (some r) =
    ground (arith, eicar_scan-ne-error payload false, eicar_scan-ne-error payload true)

-- A scan that returns never ends in ERROR: where the daemon's answer is neither, the inline test decides.
pub scan_bytes-ne-error :
    (daemon : Text → Option Text) (payload : Text) {r : ClamAvScanResult}
    → scan_bytes daemon payload ≡ ok r
    → r.result ≢ scan_error
unfolding scan_bytes
scan_bytes-ne-error daemon payload h =
    let (o, _, e) = >>=-eq-ok (read_if (daemon payload)) _ h in
    subst (λ x. x.result ≢ scan_error) (ok_inj e) (decide-ne-error payload o)
