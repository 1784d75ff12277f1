-- ===== src/Policy/Critical.antt =====
-- CRITICAL_PACKAGES of daemon/src/policy.rs.
use sundown.Base.{List, [], ◌∷◌, Text, str}

-- Names that no configuration can take off, in the order of the source.
unfoldable pub critical_packages : List Text
critical_packages =
    str "com.android.launcher3"
    ∷ str "com.android.launcher"
    ∷ str "com.oplus.launcher"
    ∷ str "com.coloros.launcher"
    ∷ str "com.android.launcher2"
    ∷ str "com.android.systemui"
    ∷ str "com.android.settings"
    ∷ str "com.android.phone"
    ∷ str "com.android.shell"
    ∷ str "com.android.permissioncontroller"
    ∷ str "com.android.inputmethod.latin"
    ∷ str "com.oplus.inputmethod"
    ∷ str "com.baidu.input_oppo"
    ∷ str "com.baidu.input"
    ∷ str "com.sohu.inputmethod.sogou"
    ∷ str "com.iflytek.inputmethod"
    ∷ str "com.bytedance.android.doubaoime"
    ∷ str "com.android.vpndialogs"
    ∷ str "com.android.mms"
    ∷ str "com.android.providers.media"
    ∷ str "清后台重开无效"
    ∷ str "com.android.intentresolver"
    ∷ str "com.android.credentialmanager"
    ∷ str "com.android.packageinstaller"
    ∷ str "com.android.documentsui"
    ∷ str "com.android.printspooler"
    ∷ str "com.android.contacts"
    ∷ str "com.android.providers.contacts"
    ∷ str "android.process.media"
    ∷ str "com.android.providers.media.module"
    ∷ str "com.coloros.gallery3d"
    ∷ str "com.oplus.camera"
    ∷ str "com.heytap.openid"
    ∷ str "com.coloros.codebook"
    ∷ str "com.android.deskclock"
    ∷ str "com.coloros.alarmclock"
    ∷ str "com.coloros.calendar"
    ∷ str "com.android.calendar"
    ∷ str "com.android.dialer"
    ∷ str "com.oplus.phone"
    ∷ str "com.android.providers.settings"
    ∷ str "com.android.providers.telephony"
    ∷ str "com.android.nfc"
    ∷ str "com.android.wifi.dialog"
    ∷ str "com.coloros.phonemanager"
    ∷ str "com.oplus.secureguard"
    ∷ str "com.oplus.permissioncontroller"
    ∷ []
