-- ===== src/Settings/Page.antt =====
-- The page of src/ConfigForm.cpp, as it stands there.
use esp32_sequencer.Base.{String}
use esp32_sequencer.Settings.{Config}
use esp32_sequencer.Settings.Form.{render_html}

-- `INDEX_HTML`
unfoldable pub index_html : String
index_html =
    "\n<!doctype html><meta charset=utf-8><title>esp32-sequencer setup</title>\n<meta name=viewport content=\"width=device-width,initial-scale=1\">\n<style>\n:root{\n  --bg:#0E1A20;--bg-2:#15242C;--bg-3:#1F313A;\n  --fg:#D8DEE9;--fg-2:#A7ADBA;--fg-3:#65737E;\n  --rule:#2C3D47;--accent:#6699CC;--accent-2:#62B3B2;--ok:#99C794;--danger:#EC5F67;\n  --sans:-apple-system,BlinkMacSystemFont,\"SF Pro Text\",\"Segoe UI\",Roboto,\"Helvetica Neue\",Arial,sans-serif;\n  --mono:ui-monospace,SFMono-Regular,\"SF Mono\",Menlo,Consolas,monospace;\n  color-scheme:dark;\n}\n*{box-sizing:border-box}\nhtml,body{margin:0;background:var(--bg);color:var(--fg);font:14px/1.5 var(--sans);-webkit-font-smoothing:antialiased}\n.wrap{max-width:520px;margin:0 auto;padding:40px 24px 80px}\nheader{display:flex;justify-content:space-between;align-items:baseline;\n  padding-bottom:14px;border-bottom:1px solid var(--rule);margin-bottom:24px}\nheader h1{font:600 22px/1.2 var(--sans);letter-spacing:-0.01em;margin:0}\nheader a{color:var(--fg);text-decoration:none;font:13px/1 var(--sans);font-weight:500;\n  padding:7px 12px;border:1px solid var(--rule);border-radius:6px;background:var(--bg)}\nheader a:hover{background:var(--bg-2);border-color:var(--fg-3)}\n.hint{font-size:13px;color:var(--fg-2);margin:0 0 22px;line-height:1.5}\n.hint code{font:12px/1 var(--mono);background:var(--bg-2);padding:2px 6px;border-radius:3px;color:var(--accent-2)}\nfieldset{border:1px solid var(--rule);border-radius:6px;padding:16px 18px 18px;margin:0 0 18px;background:var(--bg)}\nlegend{font:600 11px/1 var(--sans);text-transform:uppercase;letter-spacing:.12em;color:var(--accent-2);padding:0 8px}\nlabel{display:block;font:600 11px/1 var(--sans);text-transform:uppercase;letter-spacing:.08em;color:var(--fg-2);margin:12px 0 5px}\nlabel:first-of-type{margin-top:0}\ninput[type=text],input[type=password],input:not([type]){\n  width:100%;padding:8px 10px;font:13px/1.4 var(--mono);\n  background:var(--bg-2);border:1px solid var(--rule);border-radius:5px;color:var(--fg);\n}\ninput[type=text]:focus,input[type=password]:focus,input:not([type]):focus{\n  outline:none;border-color:var(--accent);box-shadow:0 0 0 1px var(--accent) inset\n}\ninput::placeholder{color:var(--fg-3)}\n.tog{display:flex;align-items:center;gap:8px;font:13px/1.4 var(--sans);color:var(--fg);text-transform:none;letter-spacing:0;font-weight:400;margin:0;cursor:pointer}\n.tog input{width:auto;margin:0}\nbutton{font:13px/1 var(--sans);font-weight:600;padding:9px 16px;border-radius:6px;\n  background:var(--accent);border:1px solid var(--accent);color:var(--bg);cursor:pointer;\n  transition:background .12s,border-color .12s}\nbutton:hover{background:#7faedb;border-color:#7faedb}\n::selection{background:var(--accent);color:var(--bg)}\n</style>\n<div class=wrap>\n<header>\n<h1>esp32-sequencer setup</h1>\n<a href=/>back</a>\n</header>\n<p class=hint>Bootstrap only: credentials for the WiFi network where this device idles and serves the web UI. Any other networks the device hops to are configured as <code>wifi-hop</code> blocks in the sequence editor.</p>\n<form method=post action=/save>\n<fieldset>\n<legend>Idle WiFi</legend>\n<label>SSID</label>\n<input name=idleSsid value=\"{{idleSsid}}\">\n<label>Password</label>\n<input name=idlePass type=password placeholder=\"{{idlePassHint}}\">\n</fieldset>\n<fieldset>\n<legend>Recovery</legend>\n<label class=tog><input type=checkbox name=sFb value=1 {{sFbChecked}}>\nFall back to setup AP if WiFi stays unreachable</label>\n</fieldset>\n<button type=submit>Save and reboot</button>\n</form>\n</div>\n"

-- `ConfigForm::renderHtml`
unfoldable pub config_page : Config → String
config_page cfg = render_html index_html cfg
