-- ===== src/Benchmark/Sample.antt =====
-- Test data: numbers stand for floats, and one is the state of the client, the clock, which each
-- operation moves on.
use fingerprint_full_matcher.Prelude.{
  ℕ, ◌+◌, ◌-◌, ◌==◌, ◌*◌, String, true, false, refl, Option, none, some, [], ◌∷◌, str_eq,
  if◌then◌else◌,
}
use fingerprint_full_matcher.Prelude.Int.{ℤ, pos}
use fingerprint_full_matcher.Prelude.Digits.{
  int_text, int_of_text, int_of_text-int_text, is_empty-int_text,
}
use fingerprint_full_matcher.Prelude.Result.{ok, err}
use fingerprint_full_matcher.Prelude.Action.{Action}
use fingerprint_full_matcher.Benchmark.Floats.{Floats, FloatLaws}
use fingerprint_full_matcher.Benchmark.Contract.{Bytes, ImageMetadata}
use fingerprint_full_matcher.Benchmark.Adapter.{ClientApi}
use fingerprint_full_matcher.Benchmark.Client.{Caught, other_error}

abbrev pub natural : Option ℤ → Option ℕ
natural (some (pos n)) = some n
natural _ = none

abbrev pub floats : Floats ℕ
floats = record {
  is_finite = λ x. true;
  is_negative = λ x. false;
  is_zero = λ x. x == 0;
  of_int = λ z. natural (some z);
  text = λ x. int_text (pos x);
  of_text = λ s. natural (int_of_text s);
  milliseconds = λ started now. (now - started) * 1000;
}

pub laws : FloatLaws floats
laws = record {
  of_text-text = λ x finite. rw (int_of_text-int_text (pos x)) refl;
  is_empty-text = λ x. is_empty-int_text (pos x);
}

abbrev pub read_bytes : String → Action ℕ Caught Bytes
read_bytes path s =
    if str_eq path "missing.png"
    then (err (other_error "No such file"), s)
    else (ok (7 ∷ 8 ∷ []), s + 1)

abbrev pub client : ClientApi ℕ ℕ
client = record {
  extract_template = λ b ppi s. (
    ok (record {
      payload = b;
      format_id = "sourceafis";
      format_version = "3.18.1";
      elapsed_ms = 3;
    }),
    s + 2,
  );
  verify = λ a b s. (ok (record { score = 41; elapsed_ms = 5 }), s + 4);
  close = λ s. (ok tt, 1000);
  read_bytes = read_bytes;
  perf_counter = λ s. (s, s + 1);
}

abbrev pub image : ImageMetadata
image = record { nominal_ppi = pos 1000; sha256 = "00" }

abbrev pub unreadable : String
unreadable = "missing.png"
