-- ===== src/Examples/Sample.antt =====
-- A platform, an event and a JSON event format at concrete inputs.
use cloudevents_sdk_cpp.Base.{
  ◌*◌, ◌^◌, length, take, drop, ◌≡◌, refl, arith, inl, inr, Bool, true, false, ◌&&◌, Option, none,
  some, [], ◌∷◌, Bytes, All, codes, ◌==◌, if◌then◌else◌, Bool-cases,
}
use cloudevents_sdk_cpp.Base.Lists.{same}
use cloudevents_sdk_cpp.Errors.{ok}
use cloudevents_sdk_cpp.Utf8.{
  is_valid_utf8, valid_loop, read_utf8_lead, continuations, utf8_code_point_allowed,
}
use cloudevents_sdk_cpp.Platform.{Captures, Platform}
use cloudevents_sdk_cpp.Timestamp.{
  Timestamp, OffsetForm, timestamp_text, local_time, local_date, fraction_text,
}
use cloudevents_sdk_cpp.Timestamp.RoundTrip.{IsWritten, HasGroups, captures_of}
use cloudevents_sdk_cpp.Decimal.{fixed_digits, decimal_digits, decimal_text, padded}
use cloudevents_sdk_cpp.Calendar.{
  is_leap, month_length, days_before_year, year_of, find_month, date_of,
}
use cloudevents_sdk_cpp.Attributes.{reserved_name, check_text}
use cloudevents_sdk_cpp.Event.{Event, boolean, DataT}
use cloudevents_sdk_cpp.Binding.Structured.{JsonFormat}
use cloudevents_sdk_cpp.Binding.Collected.{IsValid}
use cloudevents_sdk_cpp.Binding.Names.{in_name, MatchesNames, AcceptsNames}

abbrev pub all_in_name : Bytes → Bool
all_in_name [] = true
all_in_name (c ∷ cs) = in_name c && all_in_name cs

abbrev pub sample_name : Bytes → Bool
sample_name [] = false
sample_name (c ∷ cs) = all_in_name (c ∷ cs)

-- the text behind the first slash
abbrev pub sample_subtype : Bytes → Option Bytes
sample_subtype [] = none
sample_subtype (c ∷ cs) = if c == b'/' then some cs else sample_subtype cs

-- the groups of a text such as 1970-01-02T03:04:05Z or 1970-01-01T22:04:05.250-05:00
abbrev pub sample_captures : Bytes → Option Captures
sample_captures text =
    if length text == 20
    then some (record {
      year = take 4 text;
      month = take 2 (drop 5 text);
      day = take 2 (drop 8 text);
      hour = take 2 (drop 11 text);
      minute = take 2 (drop 14 text);
      second = take 2 (drop 17 text);
      fraction = none;
      utc_designator = true;
      offset_sign = [];
      offset_hour = [];
      offset_minute = [];
    })
    else if length text == 29
    then some (record {
      year = take 4 text;
      month = take 2 (drop 5 text);
      day = take 2 (drop 8 text);
      hour = take 2 (drop 11 text);
      minute = take 2 (drop 14 text);
      second = take 2 (drop 17 text);
      fraction = some (take 3 (drop 20 text));
      utc_designator = false;
      offset_sign = take 1 (drop 23 text);
      offset_hour = take 2 (drop 24 text);
      offset_minute = take 2 (drop 27 text);
    })
    else none

-- Documents are their own texts.
abbrev pub sample : Platform
sample = record {
  match_attribute_name = sample_name;
  match_content_type = sample_subtype;
  match_rfc3339 = sample_captures;
  Document = Bytes;
  parse_document = λ text. ok text;
  dump_document = λ d. d;
}

all_in_name-All : (n : Bytes) → all_in_name n ≡ true → All (λ c. in_name c ≡ true) n
all_in_name-All [] h = tt
all_in_name-All (c ∷ cs) h = elim (Bool-cases (in_name c)) [
  | inl p ↦ (p, all_in_name-All cs (rw p at h))
  | inr p ↦ cc (rw p at h)
]

pub sample_law : MatchesNames sample
sample_law [] h = tt
sample_law (c ∷ cs) h = all_in_name-All (c ∷ cs) h

All-in_name : (n : Bytes) → All (λ c. in_name c ≡ true) n → all_in_name n ≡ true
All-in_name [] h = refl
All-in_name (c ∷ cs) (h, hs) = rw h (All-in_name cs hs)

pub sample_accepts : AcceptsNames sample
sample_accepts c cs h = All-in_name (c ∷ cs) h

abbrev pub day_two : Timestamp
day_two = record {
  utc = 97445 * 10 ^ 9;
  offset = 0;
  form = OffsetForm.utc_designator;
  fractional_digits = 0;
}

abbrev pub greeting : Event sample
greeting = record {
  id = codes "1";
  source = codes "/s";
  type = codes "t";
  rest = record {
    datacontenttype = some (codes "text/plain");
    dataschema = none;
    subject = some (codes "x y");
    time = some day_two;
    extensions = (codes "ext", boolean true) ∷ [];
    payload = DataT.text_data (codes "hi");
  };
}

abbrev pub sample_format : JsonFormat sample
sample_format = record {
  encode = λ e. ok e.id;
  decode = λ text options. ok greeting;
  encode_batch = λ es. ok [];
  decode_batch = λ text options. ok [];
}

pub day_two_text : timestamp_text day_two ≡ codes "1970-01-02T03:04:05Z"
unfolding timestamp_text local_time local_date fraction_text padded decimal_text decimal_digits
    date_of year_of find_month is_leap month_length days_before_year
day_two_text = refl

pub day_two-IsWritten : IsWritten day_two
unfolding local_time
day_two-IsWritten = record {
  range = omega arith;
  has_local = inl (omega arith);
  offset = refl;
  digits = omega arith;
}

pub day_two-HasGroups : HasGroups sample day_two
unfolding captures_of local_time fixed_digits date_of year_of find_month is_leap month_length
    days_before_year
day_two-HasGroups = refl

pub greeting-IsValid : IsValid greeting
unfolding check_text is_valid_utf8 valid_loop read_utf8_lead continuations reserved_name same
    utf8_code_point_allowed
greeting-IsValid = record {
  id = refl;
  source = refl;
  type = refl;
  dataschema = tt;
  subject = refl;
  time = day_two-IsWritten;
  media_type = refl;
  names = (refl, tt);
  ordered = (tt, tt);
}
