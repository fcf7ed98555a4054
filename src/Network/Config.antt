-- ===== src/Network/Config.antt =====
-- docker_network: the parameters, the networks of the API, and the comparison of the two.
use openstack_osa_office_clu.Prelude.{
  ℕ, suc, Bool, true, false, not, ◌&&◌, ◌||◌, List, [], ◌∷◌, if◌then◌else◌, ◌==◌, some, none,
  Option, String, string_eq, Result, ok, err, truthy, ◌=?◌, map, all,
}
use Prim.Native.String.{◌++◌ as ◌<>◌}
use openstack_osa_office_clu.Prelude.Dict.{Dict, lookup, insert}
use openstack_osa_office_clu.Prelude.Text.{codes, within}
use openstack_osa_office_clu.Prelude.Names.{lower_string, show}
use openstack_osa_office_clu.Regex.{Regex, seq, alt, one, plus, char, times, up_to, line_match}
use openstack_osa_office_clu.Util.Differences.{Tracker, add}
use openstack_osa_office_clu.Util.Compare.{dict_equal}

pub data IpVersion : Type 0 where
  ipv4 ipv6 : IpVersion

pub data NetworkError (E : Type 0) : Type 0 where
  api : E → NetworkError E
  invalid_cidr : String → NetworkError E
  missing_subnet no_ipam out_of_patience : NetworkError E

-- `CIDR_IPV4` and `CIDR_IPV6`, without the anchors
abbrev pub decimal : Regex
decimal = one (within b'0' b'9')

abbrev pub octet : Regex
octet = seq decimal (up_to 2 decimal)

abbrev pub cidr_ipv4 : Regex
cidr_ipv4 = seq (times 3 (seq octet (char b'.'))) (
    seq octet (
      seq (char b'/') (
        alt decimal
          (alt (seq (one (within b'1' b'2')) decimal) (seq (char b'3') (one (within b'0' b'2')))))))

abbrev pub is_address_char : ℕ → Bool
is_address_char c = within b'0' b'9' c || within b'a' b'f' c || within b'A' b'F' c || c == b':'

abbrev pub cidr_ipv6 : Regex
cidr_ipv6 = seq (plus (one is_address_char)) (
    seq (char b'/') (
      alt decimal (
        alt (seq (one (within b'1' b'9')) decimal)
          (seq (char b'1') (seq (one (within b'0' b'2')) decimal)))))

-- `none` stands for the `ValueError`.
unfoldable pub validate_cidr : String → Option IpVersion
unfolding line_match
validate_cidr cidr =
    if line_match cidr_ipv4 (codes cidr)
    then some ipv4
    else if line_match cidr_ipv6 (codes cidr)
    then some ipv6
    else none

unfoldable pub normalize_ipam_config_key : String → String
unfolding lower_string
normalize_ipam_config_key key =
    if key =? "AuxiliaryAddresses" then "aux_addresses" else lower_string key

-- A value of an IPAM configuration: `None`, a text, or the auxiliary addresses.
pub data IpamValue : Type 0 where
  null : IpamValue
  text : String → IpamValue
  addresses : Dict String String → IpamValue

abbrev pub IpamConfig : Type 0
IpamConfig = Dict String IpamValue

-- `==` of two values
unfoldable pub value_eq : IpamValue → IpamValue → Bool
unfolding dict_equal
value_eq null null = true
value_eq null (text s) = false
value_eq null (addresses d) = false
value_eq (text s) null = false
value_eq (text s) (text t) = s =? t
value_eq (text s) (addresses d) = false
value_eq (addresses d) null = false
value_eq (addresses d) (text s) = false
value_eq (addresses d) (addresses e) = dict_equal d e

abbrev pub is_null : IpamValue → Bool
is_null null = true
is_null (text s) = false
is_null (addresses d) = false

-- `config.get(key)`
pub get_value : String → IpamConfig → IpamValue
unfolding lookup
get_value key config = elim (lookup key config) [ none ↦ null | some v ↦ v ]

unfoldable pub dicts_are_essentially_equal : IpamConfig → IpamConfig → Bool
unfolding value_eq get_value
dicts_are_essentially_equal a b =
    all (λ entry. is_null entry.1 || value_eq (get_value entry.0 b) entry.1) a

-- Python's `ipaddress`: the compressed form of an address or a network, `none` for a `ValueError`.
pub record IpAddresses : Type 0 where
  pub ip_address : String → Option String
  pub ip_network : String → Option String

-- `normalize_ip_address` and `normalize_ip_network` of module_utils/_util.py
abbrev pub or_input : (String → Option String) → String → String
or_input compressed s = elim (compressed s) [ none ↦ s | some t ↦ t ]

module _ (ip : IpAddresses) where
  unfoldable pub normalize_ip_address : IpamValue → IpamValue
  normalize_ip_address null = null
  normalize_ip_address (text s) = text (or_input ip.ip_address s)
  normalize_ip_address (addresses d) = addresses d

  unfoldable pub normalize_ip_network : IpamValue → IpamValue
  normalize_ip_network null = null
  normalize_ip_network (text s) = text (or_input ip.ip_network s)
  normalize_ip_network (addresses d) = addresses d

  -- `{k: normalize_ip_address(v) for k, v in value.items()}`
  abbrev pub normalize_aux_addresses : IpamValue → IpamValue
  normalize_aux_addresses null = null
  normalize_aux_addresses (text s) = text s
  normalize_aux_addresses (addresses d) = addresses (map (λ e. (e.0, or_input ip.ip_address e.1)) d)

  pub normalize_ipam_value : String → IpamValue → IpamValue
  unfolding normalize_ip_address normalize_ip_network
  normalize_ipam_value key value =
      if key =? "subnet" || key =? "iprange"
      then normalize_ip_network value
      else if key =? "gateway"
      then normalize_ip_address value
      else if key =? "aux_addresses"
      then normalize_aux_addresses value
      else value

  unfoldable pub normalize_ipam_values : IpamConfig → IpamConfig
  unfolding normalize_ipam_value
  normalize_ipam_values = map (λ e. (e.0, normalize_ipam_value e.0 e.1))

-- A network's IPAM configuration with the module's keys.
pub with_module_keys : IpamConfig → IpamConfig → IpamConfig
unfolding insert normalize_ipam_config_key
with_module_keys config [] = config
with_module_keys config ((k, v) ∷ more) =
    with_module_keys (insert (normalize_ipam_config_key k) v config) more

-- `config` is empty where the API returns `None`.
pub record Ipam : Type 0 where
  pub driver : String
  pub options : Option (Dict String String)
  pub config : List IpamConfig

-- What the API returns for a network. `containers` has the names of its containers.
pub record Network : Type 0 where
  pub id : String
  pub config_only : Option Bool
  pub config_from : Option String
  pub driver : String
  pub options : Option (Dict String String)
  pub ipam : Option Ipam
  pub enable_ipv4 : Option Bool
  pub enable_ipv6 : Option Bool
  pub internal : Option Bool
  pub scope : Option String
  pub attachable : Option Bool
  pub ingress : Option Bool
  pub labels : Option (Dict String String)
  pub containers : List String

pub data Target : Type 0 where
  present absent : Target

-- The parameters, with the flags of the run. `driver` and `driver_options` are those that
-- `TaskParameters` and `clean_dict_booleans_for_docker_api` make of the user's.
pub record Params : Type 0 where
  pub name : String
  pub connected : List String
  pub config_from : Option String
  pub config_only : Option Bool
  pub driver : String
  pub driver_options : Dict String String
  pub ipam_driver : Option String
  pub ipam_driver_options : Option (Dict String String)
  pub ipam_config : Option (List IpamConfig)
  pub appends : Bool
  pub force : Bool
  pub internal : Option Bool
  pub labels : Dict String String
  pub enable_ipv4 : Option Bool
  pub enable_ipv6 : Option Bool
  pub scope : Option String
  pub attachable : Option Bool
  pub ingress : Option Bool
  pub target : Target
  pub debug : Bool
  pub check_mode : Bool
  pub diff : Bool

-- The values that the differences show.
pub data Shown : Type 0 where
  flag : Option Bool → Shown
  string : Option String → Shown
  dict : Option (Dict String String) → Shown
  value : IpamValue → Shown
  configs : Option (List IpamConfig) → Shown
  ipam_info : Option Ipam → Shown

abbrev pub Differences : Type 0
Differences = Tracker Shown

-- `x or {}`, `.get(..., False)`, `.get(..., "")`
abbrev pub or_nil : Option (Dict String String) → Dict String String
or_nil none = []
or_nil (some d) = d

abbrev pub or_false : Option Bool → Bool
or_false none = false
or_false (some b) = b

abbrev pub or_blank : Option String → String
or_blank none = ""
or_blank (some s) = s

abbrev pub same_bool : Bool → Bool → Bool
same_bool true b = b
same_bool false b = not b

-- `wanted is not None and wanted != active`, for a flag: the value shown is given separately.
pub flag_difference : String → Option Bool → Option Bool → Shown → Differences → Differences
unfolding add
flag_difference name none active shown t = t
flag_difference name (some w) active shown t =
    if same_bool w (or_false active) then t else add name (flag (some w)) shown t

pub config_from_difference : Params → Network → Differences → Differences
unfolding add
config_from_difference p net t = elim p.config_from [
  | none ↦ t
  | some w ↦
      if w =? or_blank net.config_from
      then t
      else add "config_from" (string (some w)) (string (some (or_blank net.config_from))) t
]

pub driver_difference : Params → Network → Differences → Differences
unfolding add
driver_difference p net t =
    if not (p.driver =? "") && not (p.driver =? net.driver)
    then add "driver" (string (some p.driver)) (string (some net.driver)) t
    else t

-- A loop over the entries of a parameter: `key not in d or value != d[key]`.
pub entry_differences : String → Dict String String → Dict String String → Differences → Differences
unfolding lookup add
entry_differences prefix existing [] t = t
entry_differences prefix existing ((key, wanted) ∷ more) t =
    entry_differences prefix existing more (elim (lookup key existing) [
      | none ↦ add (prefix <> key) (string (some wanted)) (string none) t
      | some v ↦
          if wanted =? v then t else add (prefix <> key) (string (some wanted)) (string (some v)) t
    ])

-- The same for the whole parameter, against a dict that may be missing or empty.
pub dict_difference :
    String → Dict String String → Option (Dict String String) → Differences → Differences
unfolding entry_differences add
dict_difference name wanted active t =
    if not (truthy wanted)
    then t
    else if not (truthy (or_nil active))
    then add name (dict (some wanted)) (dict active) t
    else entry_differences (name <> ".") (or_nil active) wanted t

pub ipam_driver_difference : Params → Network → Differences → Differences
unfolding add
ipam_driver_difference p net t = elim p.ipam_driver [
  | none ↦ t
  | some w ↦
      let same = elim net.ipam as (λ _. Bool) [ none ↦ false | some i ↦ i.driver =? w ] in
      if w =? "" || same then t else add "ipam_driver" (string (some w)) (ipam_info net.ipam) t
]

pub ipam_options_difference : Params → Ipam → Differences → Differences
unfolding dict_equal add
ipam_options_difference p i t = elim p.ipam_driver_options [
  | none ↦ t
  | some w ↦
      if dict_equal (or_nil i.options) w
      then t
      else add "ipam_driver_options" (dict (some w)) (dict (some (or_nil i.options))) t
]

module _ (ip : IpAddresses) where
  -- The first configuration of the network that has all that is asked for; two empty dicts where
  -- there is none.
  pub find_config : IpamConfig → List IpamConfig → IpamConfig
  unfolding dicts_are_essentially_equal normalize_ipam_values
  find_config wanted [] = []
  find_config wanted (c ∷ more) =
      if dicts_are_essentially_equal (normalize_ipam_values ip wanted) (normalize_ipam_values ip c)
      then c
      else find_config wanted more

  pub config_differences : ℕ → IpamConfig → IpamConfig → Differences → Differences
  unfolding value_eq get_value normalize_ipam_values normalize_ipam_value add show
  config_differences idx found [] t = t
  config_differences idx found ((key, v) ∷ more) t = config_differences idx found more (
      if is_null v
        || value_eq (normalize_ipam_value ip key v) (get_value key (normalize_ipam_values ip found))
      then t
      else add ("ipam_config[" <> show idx <> "]." <> key) (value v) (value (get_value key found))
          t)

  pub configs_differences : ℕ → List IpamConfig → List IpamConfig → Differences → Differences
  unfolding find_config config_differences
  configs_differences idx net_configs [] t = t
  configs_differences idx net_configs (c ∷ more) t =
      configs_differences (suc idx) net_configs more
        (config_differences idx (find_config c net_configs) c t)

  pub ipam_config_difference : Params → Network → Differences → Differences
  unfolding configs_differences with_module_keys add
  ipam_config_difference p net t = elim p.ipam_config [
    | none ↦ t
    | some wanted ↦
        let existing : List IpamConfig = elim net.ipam [ none ↦ [] | some i ↦ i.config ] in
        if not (truthy wanted)
        then t
        else if not (truthy existing)
        then add "ipam_config" (configs (some wanted))
            (configs (elim net.ipam as (λ _. Option (List IpamConfig)) [
              | none ↦ none
              | some i ↦ some i.config
            ]))
            t
        else configs_differences 0 (map (with_module_keys []) existing) wanted t
  ]

  -- The checks in front of the IPAM driver's options, and those behind them.
  pub first_differences : Params → Network → Differences
  unfolding flag_difference config_from_difference driver_difference dict_difference
      ipam_driver_difference
  first_differences p net = ipam_driver_difference p net (
      dict_difference "driver_options" p.driver_options net.options (
        driver_difference p net (
          config_from_difference p net (
            flag_difference "config_only" p.config_only net.config_only
              (flag (some (or_false net.config_only))) []))))

  pub last_differences : Params → Network → Differences → Differences
  unfolding flag_difference ipam_config_difference dict_difference add
  last_differences p net t =
      let scoped = λ (u : Differences). elim p.scope as (λ _. Differences) [
        | none ↦ u
        | some w ↦
            let same = elim net.scope as (λ _. Bool) [ none ↦ false | some s ↦ w =? s ] in
            if same then u else add "scope" (string (some w)) (string net.scope) u
      ] in
      dict_difference "labels" p.labels net.labels (
        flag_difference "ingress" p.ingress net.ingress (flag net.ingress) (
          flag_difference "attachable" p.attachable net.attachable (flag net.attachable) (
            scoped (
              flag_difference "internal" p.internal net.internal (flag net.internal) (
                flag_difference "enable_ipv6" p.enable_ipv6 net.enable_ipv6
                  (flag (some (or_false net.enable_ipv6)))
                  (flag_difference "enable_ipv4" p.enable_ipv4 net.enable_ipv4
                    (flag (some (or_false net.enable_ipv4))) (ipam_config_difference p net t)))))))

  -- The differences; the Boolean that stands beside them in the code says that there are some.
  -- `net["IPAM"]` is read without a test if options are given for its driver.
  unfoldable pub has_different_config :
      {E : Type 0} → Params → Network → Result (NetworkError E) Differences
  unfolding first_differences last_differences ipam_options_difference
  has_different_config p net =
      let t = first_differences p net in
      elim p.ipam_driver_options [
        | none ↦ ok (last_differences p net t)
        | some w ↦ elim net.ipam [
          | none ↦ err no_ipam
          | some i ↦ ok (last_differences p net (ipam_options_difference p i t))
        ]
      ]
