-- ===== src/Tunnels.antt =====
-- Tunnels (tunnels.go): the saved definitions. Parameter: `parse`, Go's url.Parse with the parts of a URL
-- that the code reads.
pub mod Saved
pub mod Runs
use Prim.Native.Char.{Char, code}
use Prim.Native.String.{[] as empty, ◌∷◌ as cons, len}
use kubehealth.Prelude.{
  ℕ, suc, Bool, true, false, not, ◌&&◌, ◌||◌, String, Option, none, some, List, [], ◌∷◌, ltb, leb,
  ◌==◌, any, str_eq, text_of, if◌then◌else◌,
}
use kubehealth.Problems.Words.{trim_space}

-- `TunnelDef`
pub record TunnelDef : Type 0 where
  pub name : String
  pub command : String
  pub mode : String
  pub proxy : String
  pub address : String
  pub contexts : List String

-- What the code reads of a parsed URL.
pub record Url : Type 0 where
  pub scheme : String
  pub hostname : String
  pub port : String

is_alnum : ℕ → Bool
is_alnum c =
    (leb b'0' c && leb c b'9') || ((leb b'A' c && leb c b'Z') || (leb b'a' c && leb c b'z'))

name_chars : String → Bool
unfolding is_alnum
name_chars empty = true
name_chars (cons c s) =
    let rest = name_chars s in
    if is_alnum (code c) || (code c == b'.' || (code c == b'_' || code c == b'-'))
    then rest
    else false

-- `tunnelNameRe`: a letter or digit, then up to 63 letters, digits, dots, underscores and dashes.
unfoldable pub is_name : String → Bool
unfolding is_alnum name_chars
is_name empty = false
is_name (cons c s) = is_alnum (code c) && (name_chars s && leb (len s) 63)

has_colon : String → Bool
has_colon empty = false
has_colon (cons c s) = if code c == b':' then true else has_colon s

-- `net.JoinHostPort`
join_host_port : String → String → String
unfolding has_colon
join_host_port host port =
    if has_colon host
    then text_of ("[" ∷ host ∷ "]:" ∷ port ∷ [])
    else text_of (host ∷ ":" ∷ port ∷ [])

default_port : String → String
default_port scheme =
    if str_eq scheme "http"
    then "80"
    else if str_eq scheme "https"
    then "443"
    else if str_eq scheme "socks5" || str_eq scheme "socks5h"
    then "1080"
    else ""

pub data DefError : Type 0 where
  bad_name : DefError
  bad_command : DefError
  bad_proxy : DefError
  bad_address : DefError
  bad_mode : DefError
  no_contexts : DefError

module _ (parse : String → Option Url) where
  endpoint_of : String → String
  unfolding join_host_port default_port
  endpoint_of raw = elim (parse raw) [
    | none ↦ ""
    | some u ↦
        if str_eq u.hostname ""
        then ""
        else join_host_port u.hostname (if str_eq u.port "" then default_port u.scheme else u.port)
  ]

  -- `endpoint`
  unfoldable pub endpoint : TunnelDef → String
  unfolding endpoint_of
  endpoint d =
      if str_eq d.mode "proxy"
      then endpoint_of d.proxy
      else if str_eq d.mode "address"
      then endpoint_of d.address
      else ""

  -- A URL with a host and one of the schemes.
  is_url : List String → String → Bool
  is_url schemes raw = elim (parse raw) [
    | none ↦ false
    | some u ↦ not (str_eq u.hostname "") && any (str_eq u.scheme) schemes
  ]

  check_contexts : TunnelDef → Option DefError
  check_contexts d = elim d.contexts [ [] ↦ some no_contexts | c ∷ cs ↦ none ]

  check_mode : TunnelDef → Option DefError
  unfolding is_url check_contexts
  check_mode d =
      if str_eq d.mode "proxy"
      then (if is_url ("http" ∷ "https" ∷ "socks5" ∷ "socks5h" ∷ []) d.proxy
          then check_contexts d
          else some bad_proxy)
      else if str_eq d.mode "address"
      then (if is_url ("https" ∷ "http" ∷ []) d.address then check_contexts d else some bad_address)
      else if str_eq d.mode "none"
      then check_contexts d
      else some bad_mode

  -- `validate`; a command is measured in bytes.
  unfoldable pub validate : TunnelDef → Option DefError
  unfolding check_mode is_name trim_space
  validate d =
      if not (is_name d.name)
      then some bad_name
      else if str_eq (trim_space d.command) "" || ltb 4096 (len d.command)
      then some bad_command
      else check_mode d
