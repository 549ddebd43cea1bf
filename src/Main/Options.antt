-- ===== src/Main/Options.antt =====
-- The options of `main` in router/sr_main.c. Strings are lists of character codes.
use cscd58_nat.Base.{
  ℕ, ◌≡◌, inl, inr, List, [], ◌∷◌, Option, none, some, Bool, true, false, ◌∙◌, Option-cases,
}

-- DEFAULT_PORT, DEFAULT_TOPO, DEFAULT_HOST, DEFAULT_SERVER and DEFAULT_RTABLE, and the timeouts of
-- router/sr_nat.h
abbrev pub default_port : ℕ
default_port = 8888

abbrev pub default_topo : ℕ
default_topo = 0

abbrev pub default_host : List ℕ
default_host = 118 ∷ 114 ∷ 104 ∷ 111 ∷ 115 ∷ 116 ∷ []

abbrev pub default_server : List ℕ
default_server = 108 ∷ 111 ∷ 99 ∷ 97 ∷ 108 ∷ 104 ∷ 111 ∷ 115 ∷ 116 ∷ []

abbrev pub default_rtable : List ℕ
default_rtable = 114 ∷ 116 ∷ 97 ∷ 98 ∷ 108 ∷ 101 ∷ []

abbrev pub default_icmp_query_to : ℕ
default_icmp_query_to = 60

abbrev pub default_tcp_established_to : ℕ
default_tcp_established_to = 7440

abbrev pub default_tcp_transitory_to : ℕ
default_tcp_transitory_to = 300

-- The variables of `main` that the options set, less the log file.
pub record Options : Type 0 where
  pub host : List ℕ
  pub user : Option (List ℕ)
  pub server : List ℕ
  pub rtable : List ℕ
  pub vm_template : Option (List ℕ)
  pub port : ℕ
  pub topo : ℕ
  pub icmp_query_to : ℕ
  pub tcp_estab_idle_to : ℕ
  pub tcp_transitory_to : ℕ
  pub nat_enabled : Bool

abbrev pub default_options : Options
default_options = record {
  host = default_host;
  user = none;
  server = default_server;
  rtable = default_rtable;
  vm_template = none;
  port = default_port;
  topo = default_topo;
  icmp_query_to = default_icmp_query_to;
  tcp_estab_idle_to = default_tcp_established_to;
  tcp_transitory_to = default_tcp_transitory_to;
  nat_enabled = false;
}

-- The options as `getopt` returns them. `query_to`, `idle_to` and `transitory_to` are the cases 'I',
-- 'E' and 'R', and `unknown` is any other character.
pub data Opt : Type 0 where
  help unknown nat : Opt
  port topo host user server logfile rtable vm_template query_to idle_to transitory_to :
      List ℕ → Opt

-- `switch (c)`: the cases 'I', 'E' and 'R' fall through to the next one. `none` is the exit after -h;
-- `atoi` gives an unsigned int.
unfoldable pub set_option : (List ℕ → ℕ) → Options → Opt → Option Options
set_option atoi o help = none
set_option atoi o unknown = some o
set_option atoi o (port optarg) = some (record o { port = atoi optarg })
set_option atoi o (topo optarg) = some (record o { topo = atoi optarg })
set_option atoi o (host optarg) = some (record o { host = optarg })
set_option atoi o (user optarg) = some (record o { user = some optarg })
set_option atoi o (server optarg) = some (record o { server = optarg })
set_option atoi o (logfile optarg) = some o
set_option atoi o (rtable optarg) = some (record o { rtable = optarg })
set_option atoi o (vm_template optarg) = some (record o { vm_template = some optarg })
set_option atoi o nat = some (record o { nat_enabled = true })
set_option atoi o (query_to optarg) = some (record o {
  icmp_query_to = atoi optarg;
  tcp_estab_idle_to = atoi optarg;
  tcp_transitory_to = atoi optarg;
})
set_option atoi o (idle_to optarg) =
    some (record o { tcp_estab_idle_to = atoi optarg; tcp_transitory_to = atoi optarg })
set_option atoi o (transitory_to optarg) = some (record o { tcp_transitory_to = atoi optarg })

-- `while ((c = getopt(...)) != EOF)`
unfoldable pub set_options : (List ℕ → ℕ) → Options → List Opt → Option Options
unfolding set_option
set_options atoi o [] = some o
set_options atoi o (c ∷ cs) = elim (set_option atoi o c) [
  | none ↦ none
  | some o' ↦ set_options atoi o' cs
]

-- The options of the string that `getopt` is called with; 'I', 'E' and 'R' are not in it, and
-- `getopt` returns '?' for them.
abbrev pub Listed : Opt → Type 0
Listed (query_to a) = ⊥
Listed (idle_to a) = ⊥
Listed (transitory_to a) = ⊥
Listed _ = Unit {0}

abbrev pub AllListed : List Opt → Type 0
AllListed [] = Unit {0}
AllListed (c ∷ cs) = Listed c × AllListed cs

abbrev pub SameTimeouts : Options → Options → Type 0
SameTimeouts o o' =
    (o'.icmp_query_to ≡ o.icmp_query_to)
    × (o'.tcp_estab_idle_to ≡ o.tcp_estab_idle_to)
    × (o'.tcp_transitory_to ≡ o.tcp_transitory_to)

set_option-SameTimeouts :
    (atoi : List ℕ → ℕ) (o o' : Options) (c : Opt)
    → Listed c
    → set_option atoi o c ≡ some o'
    → SameTimeouts o o'
unfolding set_option
set_option-SameTimeouts atoi o o' help l e = absurd (cc e)
set_option-SameTimeouts atoi o o' unknown l e = (cc e, cc e, cc e)
set_option-SameTimeouts atoi o o' (port a) l e = (cc e, cc e, cc e)
set_option-SameTimeouts atoi o o' (topo a) l e = (cc e, cc e, cc e)
set_option-SameTimeouts atoi o o' (host a) l e = (cc e, cc e, cc e)
set_option-SameTimeouts atoi o o' (user a) l e = (cc e, cc e, cc e)
set_option-SameTimeouts atoi o o' (server a) l e = (cc e, cc e, cc e)
set_option-SameTimeouts atoi o o' (logfile a) l e = (cc e, cc e, cc e)
set_option-SameTimeouts atoi o o' (rtable a) l e = (cc e, cc e, cc e)
set_option-SameTimeouts atoi o o' (vm_template a) l e = (cc e, cc e, cc e)
set_option-SameTimeouts atoi o o' nat l e = (cc e, cc e, cc e)
set_option-SameTimeouts atoi o o' (query_to a) l e = elim l [ ]
set_option-SameTimeouts atoi o o' (idle_to a) l e = elim l [ ]
set_option-SameTimeouts atoi o o' (transitory_to a) l e = elim l [ ]

-- Whatever options of the string that `getopt` is called with are given, the three timeouts stay what
-- they were.
pub set_options-SameTimeouts :
    (atoi : List ℕ → ℕ) (o o' : Options) (cs : List Opt)
    → AllListed cs
    → set_options atoi o cs ≡ some o'
    → SameTimeouts o o'
unfolding set_options
set_options-SameTimeouts atoi o o' [] l e = (cc e, cc e, cc e)
set_options-SameTimeouts atoi o o' (c ∷ cs) l e = elim (Option-cases (set_option atoi o c)) [
  | inl n ↦ absurd (cc (rw (n, set_options) at e))
  | inr (mid, n) ↦
      let a = set_option-SameTimeouts atoi o mid c l.0 n in
      let b = set_options-SameTimeouts atoi mid o' cs l.1 (rw (n, set_options) at e) in
      (b.0 ∙ a.0, b.1 ∙ a.1, b.2 ∙ a.2)
]
