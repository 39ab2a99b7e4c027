-- ===== src/Error/Esp32.antt =====
-- platform/esp32/osa_error.c: texts and categories of the ESP32 port.
use Prim.Native.String.{String}
use open_hsm.Base.{
  ℕ, zero, suc, ◌-◌, ◌+◌, ◌&&◌, Option, none, some, List, [], ◌∷◌, if◌then◌else◌, ltb, leb, ℤ, pos,
  negsuc,
}
use open_hsm.Error.{ok, generic, invalid_param, not_initialized, no_memory, timeout, code}

-- The values of `esp_err_t` that the source names, and the rest.
pub data EspErr : Type 0 where
  esp_ok esp_no_mem esp_invalid_arg esp_invalid_state esp_invalid_size esp_not_found : EspErr
  esp_not_supported esp_timeout esp_invalid_response esp_invalid_crc esp_invalid_version : EspErr
  esp_invalid_mac esp_other : EspErr

-- A table at an index, `none` out of range.
abbrev entry : List String → ℕ → Option String
entry [] n = none
entry (s ∷ ss) zero = some s
entry (s ∷ ss) (suc n) = entry ss n

abbrev esp32_error_strings : List String
esp32_error_strings =
    "ESP32: Task creation failed" ∷ "ESP32: Out of memory" ∷ "ESP32: Invalid handle"
    ∷ "ESP32: Queue full" ∷ "ESP32: Semaphore timeout" ∷ []

abbrev err_base : ℕ
err_base = 256

abbrev std_error_strings : List String
std_error_strings =
    "Success" ∷ "Generic error" ∷ "Invalid parameter" ∷ "Null pointer" ∷ "Not initialized"
    ∷ "No memory" ∷ "Timeout" ∷ "Mutex lock failed" ∷ "Thread creation failed" ∷ "Queue full"
    ∷ "Worker pool init failed" ∷ "Worker pool queue full" ∷ "HSM init failed" ∷ "HSM invalid state"
    ∷ []

abbrev std_error_categories : List String
std_error_categories =
    "General" ∷ "General" ∷ "Parameter" ∷ "Memory" ∷ "State" ∷ "Memory" ∷ "Timeout" ∷ "Sync"
    ∷ "Thread" ∷ "Queue" ∷ "Worker" ∷ "Worker" ∷ "HSM" ∷ "HSM" ∷ []

-- `osa_error_string_std`, where `none` is NULL.
unfoldable pub error_string_std : ℤ → Option String
error_string_std (negsuc n) = none
error_string_std (pos n) = entry std_error_strings n

unfoldable pub error_category_std : ℤ → String
error_category_std (negsuc n) = "Unknown"
error_category_std (pos n) = elim (entry std_error_categories n) [ none ↦ "Unknown" | some s ↦ s ]

-- The table of the ESP32's own errors, which start at 0x100.
unfoldable pub esp32_text : ℤ → Option String
esp32_text (negsuc n) = none
esp32_text (pos n) = if leb err_base n then entry esp32_error_strings (n - err_base) else none

-- `osa_error_string` of this platform
unfoldable pub esp32_error_string : ℤ → String
unfolding error_string_std esp32_text
esp32_error_string err = elim (error_string_std err) [
  | some s ↦ s
  | none ↦ elim (esp32_text err) [ some s ↦ s | none ↦ "ESP32: Unknown error" ]
]

-- `osa_error_category` of this platform
unfoldable pub esp32_error_category : ℤ → String
unfolding error_category_std
esp32_error_category (negsuc n) = error_category_std (negsuc n)
esp32_error_category (pos n) =
    if leb err_base n && ltb n (err_base + 256) then "ESP32" else error_category_std (pos n)

-- `osa_error_from_esp_err`
unfoldable pub error_from_esp_err : EspErr → ℤ
error_from_esp_err esp_ok = code ok
error_from_esp_err esp_no_mem = code no_memory
error_from_esp_err esp_invalid_arg = code invalid_param
error_from_esp_err esp_invalid_state = code not_initialized
error_from_esp_err esp_invalid_size = code invalid_param
error_from_esp_err esp_not_found = code generic
error_from_esp_err esp_not_supported = code generic
error_from_esp_err esp_timeout = code timeout
error_from_esp_err esp_invalid_response = code generic
error_from_esp_err esp_invalid_crc = code generic
error_from_esp_err esp_invalid_version = code generic
error_from_esp_err esp_invalid_mac = code generic
error_from_esp_err esp_other = code generic
