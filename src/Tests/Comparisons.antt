-- ===== src/Tests/Comparisons.antt =====
-- A run of the wrapper of `memcmp`.
use symcc.Common.{◌==◌, if◌then◌else◌}
use symcc.Wrappers.Comparing.{CompareFunctions}

abbrev comparing : CompareFunctions
comparing = record {
  strlen = λ s memory. 0;
  strchr = λ s c memory. 0;
  memcmp = λ a b n memory. if memory a == memory b then 0 else 1;
  strncmp = λ a b n memory. 0;
  strncasecmp = λ a b n memory. 0;
  ntohl = λ x. x;
  htonl = λ x. x;
  ntohs = λ x. x;
  htons = λ x. x;
  strchr_site = 101;
  memcmp_site = 102;
  strncmp_site = 103;
  strncasecmp_site = 104;
}
