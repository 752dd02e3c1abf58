-- ===== src/Lib.antt =====
-- Verification of the CloudEvents SDK for C++: the current generation of the headers under
-- include/cloudevents.
--
-- The program is a header-only library. An event (core.hpp) holds validated attributes
-- (attributes.hpp, detail/validated_string.hpp), extensions and a payload. A binding (binding/)
-- writes an event into a message (message.hpp), which is a list of fields and a body, and reads it
-- back: in binary mode each attribute is a field whose value a codec escapes
-- (binding/detail/percent.hpp) and the body is the payload; in structured mode the body is the whole
-- event in a format (format/). Failures are values of result.hpp.
--
-- The files and the code they model:
--   Base       lists, tests, bit operations and 64-bit words on the native numbers; a string is a list
--              of bytes
--   Errors     result.hpp: errc, error, result, fail, forward_failure
--   Text       attributes.hpp: ascii_lower, iequals, iends_with, starts_with_ignoring_case
--   Utf8       attributes.hpp: read_utf8_lead to is_valid_utf8. Lead has the arithmetic of one byte,
--              Scalars the Unicode scalar values and their encoding, WellFormed the equivalence
--   Base64     format/base64.hpp. Quantum has the arithmetic of one group, RoundTrip and Canonical
--              the theorems
--   Percent    binding/detail/percent.hpp
--   Wire       format/detail/protobuf_wire.hpp: the reader and the writer of varints, tags and bodies
--   Protobuf   format/protobuf_format.hpp: read_field and for_each_field. Value has the attribute values,
--              Scan the wire message, Decode the event made of it, Encode the writer. Walk, Visits and
--              Invariant are about the walk over the fields; Values, Entries, Applied, Context,
--              Attributes, Fields, Message, RoundTrip, Batch and Limits about what is written;
--              ReadValues, Scanned, Sound and Decoded about what is read
--   Headers    message.hpp: raw_headers, headers.adopt, message, content_mode
--   Decimal    numbers as decimal digits, with std::to_string, std::format and to_int
--   Calendar   the proleptic Gregorian calendar of std::chrono::year_month_day
--   Platform   what comes from elsewhere, as a record: the matchers of the CTRE library, with the
--              groups of the RFC 3339 pattern, and the JSON codec
--   Timestamp  detail/timestamp.hpp: parse_timestamp and to_string. Digits has the fraction and the
--              offset, Instant the arithmetic of words, RoundTrip the theorem
--   Maps       std::map with strings as keys: insert_or_assign, emplace, find, erase
--   Attributes attributes.hpp: the policies, validated_string::make, spec_version::make,
--              is_json_content_type, store_attribute
--   Event      core.hpp: data_t, options, event, builder, extensions, lint. Extensions has what a
--              change of the extensions does
--   Binding    binding/common.hpp: the traits and the names of fields. Write has write_attributes,
--              Read has read_attributes, Body the copied and the moved body, Structured and
--              ProtobufStructured (binding/detail/protobuf_structured.hpp) the structured mode;
--              Essence reads the latter back; Apart, Carried, Collected, Separate, Names, Binary
--              and Attributed carry the round trips, and Sound has what the reader guarantees
--   Http       binding/http.hpp: value policies, content modes, writing and reading
--   Kafka      binding/kafka.hpp: the same, and records with their keys
--   Nats       binding/nats.hpp: the same, and the payload form
--   Mqtt       binding/mqtt.hpp: MQTT 5.0 messages. Foreign has the User Properties that are no
--              attributes
--   Examples   runs of the definitions, and the theorems at concrete inputs
--
-- A byte is a number below 256, and 32 and 64 bit integers keep their wrap-around as a remainder. The
-- values that a lambda assigns and the arguments that a function takes by reference are passed in
-- and returned. A std::map is the list of its entries by ascending key. A signed 64-bit integer is its
-- word in two's complement, and the first day and first second from which instants are counted lie
-- before every instant that 64 bits of nanoseconds hold.
--
-- Some loops run on fuel: the outer loop of is_valid_utf8 and the walk of for_each_field have one
-- round for each byte of the text, and a round takes one byte at least. The digits of a number n
-- have n + 1 rounds, and the search for a month eleven, one for each month but the last.
--
-- Not modelled: the JSON event format, which stands behind the record JsonFormat, the typed access to
-- extension structs, and the ownership inside validated_string. The adapters of third-party JSON
-- libraries, the reflection over user types and the earlier generations (include/cloudevents/v1, v2,
-- v3) are left out.
pub mod Base
pub mod Errors
pub mod Base64
pub mod Utf8
pub mod Percent
pub mod Wire
pub mod Protobuf
pub mod Text
pub mod Headers
pub mod Decimal
pub mod Calendar
pub mod Platform
pub mod Timestamp
pub mod Maps
pub mod Attributes
pub mod Event
pub mod Binding
pub mod Http
pub mod Kafka
pub mod Nats
pub mod Mqtt
mod Examples
