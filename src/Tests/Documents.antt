-- ===== src/Tests/Documents.antt =====
-- Instances of the theorems on documents, addresses and printed lines.
use fullerite.Base.{Option, ℕ, ◌≡◌, refl, true, false, none, some, [], ◌∷◌, arith}
use fullerite.Base.Int.{pos, ◌+ℤ◌}
use fullerite.Base.Text.{Str, codes, decimal}
use fullerite.Base.Dict.{Dict, lookup, insert}
use fullerite.Base.Result.{Error, ok, err, bind}
use fullerite.Python.{Value, int, flt, num, str, strs, nil}
use fullerite.Metric.{Metric}
use fullerite.Metric.Line.{parse, print, parse-print}
use fullerite.Json.{Json, Fields, no_fields, field, number, object, get_field}
use fullerite.Mongo.{publish_fields, publish_value}
use fullerite.Mongo.Flat.{leaves_of, for_each, publish_found, publish_fields-leaves_of}
use fullerite.Mongo.Locks.{share, tenth, read_share}
use fullerite.Mongo.Locks.Ignored.{read_share-dot}
use fullerite.Redis.{parse_instance, default_port}
use fullerite.Redis.Single.{address_text, nick_part, tcp, parse_instance-text}
use fullerite.Redis.Texts.{Plain}
use fullerite.Redis.Password.{parse_instance-password}
use fullerite.Elastic.{Metrics, copy_levels, copy_fields, set_or_sum, add_values}
use fullerite.Elastic.Totals.{total_levels, copy_levels-total_levels}
use fullerite.Elastic.Collect.{Response, failed}
use fullerite.Jolokia.{clean, escape_domain, check_domain_for_blacklist}
use fullerite.Jolokia.Names.{Clean, clean-clean}
use fullerite.Jolokia.Escape.{unescape, unescape-escape_domain}
use fullerite.Jolokia.Beans.{Jolokia, Host, Request}
use fullerite.Jolokia.Collect.{collect_domains, read_domain}
use fullerite.Jolokia.Collect.Failed.{collect_domains-failed}
use fullerite.Memcached.{get_stats}
use fullerite.Memcached.Pid.{get_stats-pid}
use fullerite.Tests.Floats.{whole}
use fullerite.Tests.Worlds.{world, collector_with}

abbrev integer : ℕ → Json ℕ
integer n = number (int (pos n))

abbrev locks : Fields ℕ
locks =
    field (codes "test")
      (object (
        field (codes "timeLockedMicros")
          (object (field (codes "r") (integer 30) (field (codes "R") (integer 50) no_fields)))
          no_fields))
      no_fields

publish_fields-leaves_of_example :
    publish_fields world 1 (publish_value world 1) [] locks (collector_with 300 [])
    ≡ for_each
        (publish_found world 1 (publish_value world 1))
        (leaves_of false [] locks)
        (collector_with 300 [])
publish_fields-leaves_of_example =
    publish_fields-leaves_of world 1 (publish_value world 1) [] locks (collector_with 300 [])

read_share-dot_example :
    read_share world 1 (λ p s. true) locks (codes "test")
    ≡ bind
        (share world 1 (λ p s. true) locks [] (codes "test") (codes ".timeLockedMicros.r"))
        λ r. tenth world 1 (λ p s. true) r (number (int (pos 0)))
unfolding get_field
read_share-dot_example = read_share-dot world 1 (λ p s. true) locks (codes "test") refl

db-Plain : Plain (codes "db1")
db-Plain = record {
  has_char = λ h. ground (arith, h);
  no_at = omega arith;
  no_slash = omega arith;
  no_colon = omega arith;
  no_prefix = refl;
}

parse_instance-text_example :
    parse_instance world (
      nick_part
        (some (codes "main"))
        (address_text (codes "db1") (codes "6380") (some (codes "pw"))))
    ≡ ok (codes "main", tcp (codes "db1") (pos 6_380) (some (codes "pw")))
parse_instance-text_example =
    parse_instance-text world (codes "db1") (codes "6380") (pos 6_380) (some (codes "main"))
      (some (codes "pw")) (omega arith) db-Plain (omega arith) (omega arith) refl

abbrev redis_config : Dict (Value ℕ)
redis_config =
    (codes "instances", strs [])
    ∷ (codes "host", str (codes "db1"))
    ∷ (codes "port", num (int (pos 80)))
    ∷ (codes "auth", str (codes "pw"))
    ∷ []

parse_instance-password_example :
    parse_instance world (address_text (codes "db1") (codes "80") (some (codes "p@ss")))
    ≡ ok (
      address_text (codes "db1") (codes "80") (some (codes "p")),
      tcp (codes "ss") default_port none,
    )
parse_instance-password_example =
    parse_instance-password world (codes "db1") (codes "80") (codes "p") (codes "ss") db-Plain
      (omega arith) (omega arith) (omega arith) (omega arith)

-- the totals of two operations, of which one is in the table
abbrev levels : Fields ℕ
levels =
    field (codes "search") (object (field (codes "total") (integer 3) no_fields))
      (field (codes "get") (object (field (codes "total") (integer 4) no_fields)) no_fields)

abbrev search_total : Str
search_total = codes "a.search.total"

abbrev table : Metrics whole
table = (search_total, integer 9) ∷ []

abbrev summed : Metrics whole
summed = (search_total, integer 12) ∷ (codes "a.get.total", integer 4) ∷ []

copy_levels-total_levels_example :
    total_levels whole (λ k. true) (codes "a") search_total levels (lookup search_total table)
    ≡ ok (lookup search_total summed)
unfolding copy_levels copy_fields set_or_sum add_values lookup insert ◌+ℤ◌
copy_levels-total_levels_example =
    copy_levels-total_levels whole (λ k. true) (codes "a") search_total levels table summed refl

abbrev fixed : ℕ → Value ℕ → Str
fixed p (num (int (pos n))) = decimal n
fixed p v = []

abbrev line_metric : Metric ℕ
line_metric = record {
  path = codes "servers.cpu.user";
  value = num (int (pos 42));
  raw_value = nil;
  timestamp = pos 100;
  precision = 0;
  metric_type = codes "GAUGE";
  ttl = none;
  dimensions = none;
}

parse-print_example :
    parse whole (pos 7) (print whole fixed line_metric)
    ≡ ok (record {
      path = codes "servers.cpu.user";
      value = num (flt 42);
      raw_value = nil;
      timestamp = pos 100;
      precision = 0;
      metric_type = codes "COUNTER";
      ttl = none;
      dimensions = none;
    })
parse-print_example =
    parse-print whole fixed (pos 7) line_metric 100 42 100 (ground arith) (ground arith) refl refl
      refl refl

abbrev no_keep : Str → Str
no_keep s = s

unescape-escape_domain_example :
    unescape (no_keep (escape_domain no_keep (codes "a!/b"))) ≡ codes "a!/b"
unescape-escape_domain_example = unescape-escape_domain no_keep no_keep (codes "a!/b") (λ t. refl)

clean-clean_example :
    Clean false (clean (codes "java.lang:type=(Memory)"))
    × (clean (clean (codes "java.lang:type=(Memory)")) ≡ clean (codes "java.lang:type=(Memory)"))
clean-clean_example = clean-clean (codes "java.lang:type=(Memory)")

abbrev agent : Host ℕ
agent = record { host = str (codes "localhost"); port = num (int (pos 8_778)) }

abbrev jolokia : Jolokia ℕ
jolokia = record {
  collector = record (collector_with 300 []) {
    config = (codes "mbean_blacklist", strs []) ∷ (codes "read_limit", num (int (pos 1_000))) ∷ [];
  };
  domain_keys = [];
  last_list_request = integer 0;
  mbeans = [];
  rewrites = [];
  domain_blacklist = codes "jolokia" ∷ [];
}

abbrev no_answer : Host ℕ → Request ℕ → Response ℕ
no_answer h r = failed (codes "URLError")

abbrev no_sub : Str → Str → Str → Str
no_sub old new s = s

collect_domains-failed_example :
    (x : Error) × (collect_domains world 1 no_sub no_keep no_answer agent
        (codes "java" ∷ codes "tomcat" ∷ [])
        jolokia
      ≡ (err x, (read_domain world 1 no_sub no_keep no_answer agent (codes "java") jolokia).1))
unfolding lookup check_domain_for_blacklist
collect_domains-failed_example =
    collect_domains-failed world 1 no_sub no_keep no_answer agent (codes "java") (codes "URLError")
      (codes "tomcat" ∷ []) [] (num (int (pos 1_000))) jolokia refl refl refl refl refl

-- two ways to find a connection limit, which differ for the server's process only
abbrev limit_of : Option Str → Option Str
limit_of none = none
limit_of (some pid) = some (codes "1024")

abbrev no_limit : Option Str → Option Str
no_limit pid = none

get_stats-pid_example :
    get_stats world limit_of (codes "STAT pid 42" ∷ codes "STAT threads 4" ∷ [])
    ≡ get_stats world no_limit (codes "STAT pid 42" ∷ codes "STAT threads 4" ∷ [])
get_stats-pid_example =
    get_stats-pid world limit_of no_limit (codes "STAT pid 42" ∷ codes "STAT threads 4" ∷ []) refl
