-- ===== src/Config.antt =====
-- The parts of the protocol buffer messages of veidemann-api that the program reads. The getters of
-- these messages return zero values on nil; fields read without a getter are options where nil is
-- possible and a panic would follow.
use veidemann_browser_contro.Prelude.{ℕ, ℤ, Bool, String, List, Option, none, some, []}

-- configV1.Annotation
pub record Annotation : Type 0 where
  pub key : String
  pub value : String

-- configV1.BrowserScript_BrowserScriptType
pub data ScriptType : Type 0 where
  undefined extract_outlinks replacement on_load on_new_document scope_check : ScriptType

-- configV1.BrowserScript
pub record BrowserScript : Type 0 where
  pub script : String
  pub url_regexp : List String
  pub browser_script_type : ScriptType

-- configV1.PolitenessConfig_RobotsPolicy
pub data RobotsPolicy : Type 0 where
  obey_robots ignore_robots custom_robots custom_if_missing : RobotsPolicy
  obey_robots_classic custom_robots_classic custom_if_missing_classic : RobotsPolicy

-- configV1.ConfigRef
pub record ConfigRef : Type 0 where
  pub id : String

-- configV1.CrawlConfig
pub record CrawlConfig : Type 0 where
  pub collection_ref : ConfigRef
  pub browser_config_ref : ConfigRef
  pub politeness_ref : ConfigRef
  pub create_screenshot : Bool

-- configV1.BrowserConfig
pub record BrowserConfig : Type 0 where
  pub user_agent : String
  pub window_width : ℕ
  pub window_height : ℕ
  pub page_load_timeout_ms : ℕ
  pub max_inactivity_time_ms : ℕ
  pub script_ref : List ConfigRef
  pub script_selector : List String

-- The oneof field `spec` of configV1.ConfigObject, nil if it holds a message that is not in use here.
pub data Spec : Type 0 where
  nil : Spec
  browser_script : BrowserScript → Spec
  browser_config : BrowserConfig → Spec
  politeness_config : RobotsPolicy → Spec

-- configV1.ConfigObject, with the name and the annotations of its `meta`.
pub record ConfigObject : Type 0 where
  pub id : String
  pub name : String
  pub annotation : List Annotation
  pub spec : Spec

-- GetBrowserScript; a nil message reads as the zero values.
abbrev pub zero_browser_script : BrowserScript
zero_browser_script = record { script = ""; url_regexp = []; browser_script_type = undefined }

spec_browser_script : Spec → Option BrowserScript
spec_browser_script (browser_script b) = some b
spec_browser_script _ = none

unfoldable pub get_browser_script : ConfigObject → Option BrowserScript
unfolding spec_browser_script
get_browser_script c = spec_browser_script c.spec

abbrev pub or_zero : Option BrowserScript → BrowserScript
or_zero none = zero_browser_script
or_zero (some b) = b

-- frontierV1.Cookie; the time is a float64, by its bits.
pub record Cookie : Type 0 where
  pub name : String
  pub value : String
  pub domain : String
  pub path : String
  pub expires : ℕ
  pub size : ℤ
  pub http_only : Bool
  pub secure : Bool
  pub session : Bool
  pub same_site : String

-- frontierV1.QueuedUri, without its time stamp
pub record QueuedUri : Type 0 where
  pub uri : String
  pub execution_id : String
  pub job_execution_id : String
  pub discovery_path : String
  pub referrer : String
  pub cookies : List Cookie
  pub annotation : List Annotation
